-- ===== src/Issues/Routing.antt =====
-- issue_comment_routing.go: which agent or squad a comment wakes that mentions nobody.
pub mod Justified
use agent_board.Prelude.{
  ℕ, Bool, true, false, ◌&&◌, Option, none, some, List, [], ◌∷◌, if◌then◌else◌,
}
use agent_board.Prelude.Text.{Text, trim_space, text_eq}

pub data AssigneeType : Type 0 where
  agent squad other_assignee : AssigneeType

-- IssueCommentImplicitRoutingFacts; the parent's author is an agent or not.
pub record RoutingFacts : Type 0 where
  pub has_explicit_mentions : Bool
  pub is_reply : Bool
  pub parent_is_agent : Bool
  pub parent_author_id : Text
  pub thread_agent_ids : List Text
  pub assignee_type : Option AssigneeType
  pub assignee_id : Option Text

-- The routing reasons.
pub data RoutingReason : Type 0 where
  direct_agent_reply unique_thread_agent issue_assignee issue_squad_assignee : RoutingReason

-- IssueCommentImplicitRoute: the target's id, whether its type is SQUAD, and the reason. The field
-- TargetAgentID is the target's id again where it is an agent, and blank where it is a squad.
pub record Route : Type 0 where
  pub target : Text
  pub is_squad : Bool
  pub reason : RoutingReason

-- The end of uniqueNonEmptyString.
abbrev pub selected_text : Text → Option Text
selected_text [] = none
selected_text (c ∷ s) = some (c ∷ s)

-- A turn of uniqueNonEmptyString's loop, with what the rest of the loop makes of the text selected
-- before and of the new one.
abbrev pub select_next : (selected value : Text) (kept fresh : Option Text) → Option Text
select_next selected [] kept fresh = kept
select_next [] (c ∷ s) kept fresh = fresh
select_next (d ∷ t) (c ∷ s) kept fresh = if text_eq (c ∷ s) (d ∷ t) then kept else none

unfoldable pub unique_after : Text → List Text → Option Text
unique_after selected [] = selected_text selected
unique_after selected (raw ∷ raws) =
    select_next selected (trim_space raw) (unique_after selected raws)
      (unique_after (trim_space raw) raws)

-- uniqueNonEmptyString
unfoldable pub unique_non_empty_string : List Text → Option Text
unfolding unique_after
unique_non_empty_string values = unique_after [] values

abbrev pub to_agent : RoutingReason → Text → Option Route
to_agent reason [] = none
to_agent reason (c ∷ s) = some (record { target = c ∷ s; is_squad = false; reason = reason })

abbrev pub to_squad : Text → Option Route
to_squad [] = none
to_squad (c ∷ s) =
    some (record { target = c ∷ s; is_squad = true; reason = RoutingReason.issue_squad_assignee })

abbrev pub to_thread : Option Text → Option Route
to_thread none = none
to_thread (some target) =
    some (record { target = target; is_squad = false; reason = RoutingReason.unique_thread_agent })

abbrev pub to_assignee : Option AssigneeType → Option Text → Option Route
to_assignee (some agent) (some id) = to_agent RoutingReason.issue_assignee (trim_space id)
to_assignee (some squad) (some id) = to_squad (trim_space id)
to_assignee _ _ = none

abbrev pub or_else : Option Route → Option Route → Option Route
or_else none other = other
or_else (some route) other = some route

-- ResolveIssueCommentImplicitRoute
unfoldable pub resolve_implicit_route : RoutingFacts → Option Route
unfolding unique_non_empty_string
resolve_implicit_route facts =
    let parent : Option Route =
      if facts.parent_is_agent
      then to_agent RoutingReason.direct_agent_reply (trim_space facts.parent_author_id)
      else none in
    if facts.has_explicit_mentions
    then none
    else (if facts.is_reply
        then or_else parent (to_thread (unique_non_empty_string facts.thread_agent_ids))
        else to_assignee facts.assignee_type facts.assignee_id)
