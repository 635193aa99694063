-- ===== src/Examples/Issues.antt =====
-- The issue AB-12.
use agent_board.Prelude.{false, some, ◌≡◌, refl, true, [], ◌∷◌, arith}
use agent_board.Prelude.Text.{text_eq, Text, trim_space}
use agent_board.Prelude.Lists.{take, drop}
use agent_board.Prelude.Decimal.{atoi_positive}
use agent_board.Issues.Keys.{
  parsed, invalid_key_number, format_issue_key, valid_issue_prefix, parse_issue_key, index_byte,
}
use agent_board.Issues.Routing.{
  RoutingFacts, RoutingReason, Route, AssigneeType, resolve_implicit_route, unique_non_empty_string,
  unique_after,
}
use agent_board.Issues.Routing.Justified.{Justified, resolve_implicit_route-Justified}
use agent_board.Issues.Keys.RoundTrip.{
  IsKey, parse_issue_key-format_issue_key, parse_issue_key-IsKey,
}

abbrev ab : Text
ab = 65 ∷ 66 ∷ []

ab_valid : valid_issue_prefix ab ≡ true
unfolding valid_issue_prefix
ab_valid = refl

parse_issue_key-format_issue_key_example : parse_issue_key (format_issue_key ab 12) ≡ parsed ab 12
parse_issue_key-format_issue_key_example =
    parse_issue_key-format_issue_key ab 12 ab_valid (omega arith) (omega arith)

-- " AB-012", which has white space and a zero in front.
abbrev padded : Text
padded = 32 ∷ 65 ∷ 66 ∷ 45 ∷ 48 ∷ 49 ∷ 50 ∷ []

padded_parsed : parse_issue_key padded ≡ parsed ab 12
unfolding parse_issue_key trim_space valid_issue_prefix index_byte atoi_positive take drop
padded_parsed = refl

parse_issue_key-IsKey_example : IsKey padded ab 12
parse_issue_key-IsKey_example = parse_issue_key-IsKey padded ab 12 padded_parsed

-- "AB-12-extra" and "AB-0" are no keys.
abbrev extra : Text
extra = 65 ∷ 66 ∷ 45 ∷ 49 ∷ 50 ∷ 45 ∷ 101 ∷ []

extra_refused : parse_issue_key extra ≡ invalid_key_number
unfolding parse_issue_key trim_space valid_issue_prefix index_byte atoi_positive take drop
extra_refused = refl

-- A reply to a comment of a person, in a thread of one agent.
abbrev reply : RoutingFacts
reply = record {
  has_explicit_mentions = false;
  is_reply = true;
  parent_is_agent = false;
  parent_author_id = ab;
  thread_agent_ids = (32 ∷ 99 ∷ []) ∷ [] ∷ (99 ∷ []) ∷ [];
  assignee_type = some AssigneeType.agent;
  assignee_id = some ab;
}

abbrev reply_route : Route
reply_route = record {
  target = 99 ∷ [];
  is_squad = false;
  reason = RoutingReason.unique_thread_agent;
}

reply_resolved : resolve_implicit_route reply ≡ some reply_route
unfolding resolve_implicit_route unique_non_empty_string unique_after trim_space text_eq
reply_resolved = refl

resolve_implicit_route-Justified_example :
    (reply.has_explicit_mentions ≡ false)
    × Justified reply reply_route.target reply_route.is_squad reply_route.reason
resolve_implicit_route-Justified_example =
    resolve_implicit_route-Justified reply reply_route reply_resolved
