-- ===== src/Issues/Routing/Justified.antt =====
-- issue_comment_routing.go: the grounds of a route.
use mathlib.Core.Path.{subst}
use agent_board.Prelude.{
  ℕ, ◌≡◌, refl, sym, ap, ◌∙◌, Bool, true, false, Bool-cases, Option, none, some, List, [], ◌∷◌, ◌⊎◌,
  inl, inr, if-cases, arith,
}
use agent_board.Prelude.Rows.{In}
use agent_board.Prelude.Text.{Text, trim_space, text_eq, text_eq→eq}
use agent_board.Issues.Routing.{
  AssigneeType, RoutingFacts, RoutingReason, Route, select_next, unique_after,
  unique_non_empty_string, to_agent, to_squad, to_thread, to_assignee, or_else,
  resolve_implicit_route,
}

-- A text that is not empty and one of the trimmed values, where each trimmed value is that text or
-- empty.
pub record Unique (v : Text) (values : List Text) : Type 0 where
  pub non_empty : text_eq v [] ≡ false
  pub each : (x : Text) → In x values → (trim_space x ≡ []) ⊎ (trim_space x ≡ v)
  pub among : (x : Text) × In x values × (trim_space x ≡ v)

-- The same, where a text may have been selected before.
record After (s v : Text) (values : List Text) : Type 0 where
  non_empty : text_eq v [] ≡ false
  before : (s ≡ []) ⊎ (s ≡ v)
  each : (x : Text) → In x values → (trim_space x ≡ []) ⊎ (trim_space x ≡ v)
  among : (s ≡ v) ⊎ ((x : Text) × In x values × (trim_space x ≡ v))

module _ (v raw : Text) (raws : List Text)
    (ih : (s : Text) → unique_after s raws ≡ some v → After s v raws) where
  with_head :
      (trim_space raw ≡ []) ⊎ (trim_space raw ≡ v)
      → ((x : Text) → In x raws → (trim_space x ≡ []) ⊎ (trim_space x ≡ v))
      → (x : Text) → In x (raw ∷ raws)
      → (trim_space x ≡ []) ⊎ (trim_space x ≡ v)
  with_head h each x (inl e) = subst (λ y. (trim_space y ≡ []) ⊎ (trim_space y ≡ v)) (sym e) h
  with_head h each x (inr m) = each x m

  later :
      {s : Text}
      → (s ≡ v) ⊎ ((x : Text) × In x raws × (trim_space x ≡ v))
      → (s ≡ v) ⊎ ((x : Text) × In x (raw ∷ raws) × (trim_space x ≡ v))
  later (inl e) = inl e
  later (inr (x, m, e)) = inr (x, inr m, e)

  chosen : {c : ℕ} {u : Text} → (c ∷ u ≡ []) ⊎ (c ∷ u ≡ v) → c ∷ u ≡ v
  chosen (inl e) = absurd (ground (arith, e))
  chosen (inr e) = e

  turn-After :
      (s t : Text)
      → trim_space raw ≡ t
      → select_next s t (unique_after s raws) (unique_after t raws) ≡ some v
      → After s v (raw ∷ raws)
  turn-After s [] q e =
      let a = ih s e in
      record {
        non_empty = a.non_empty;
        before = a.before;
        each = with_head (inl q) a.each;
        among = later a.among;
      }
  turn-After [] (c ∷ u) q e =
      let a = ih (c ∷ u) e in
      let b = q ∙ chosen a.before in
      record {
        non_empty = a.non_empty;
        before = inl refl;
        each = with_head (inr b) a.each;
        among = inr (raw, inl refl, b);
      }
  turn-After (d ∷ s) (c ∷ u) q e = elim (Bool-cases (text_eq (c ∷ u) (d ∷ s))) [
    | inl t ↦
        let a = ih (d ∷ s) (ground (arith, e, t)) in
        let b = q ∙ text_eq→eq (c ∷ u) (d ∷ s) t ∙ chosen a.before in
        record {
          non_empty = a.non_empty;
          before = a.before;
          each = with_head (inr b) a.each;
          among = later a.among;
        }
    | inr t ↦ absurd (ground (arith, e, t))
  ]

unique_after-After :
    (s : Text) (values : List Text) (v : Text) → unique_after s values ≡ some v → After s v values
unfolding unique_after text_eq
unique_after-After [] [] v e = absurd (ground (arith, e))
unique_after-After (c ∷ s) [] v e =
    let b : c ∷ s ≡ v = ground (arith, e) in
    record {
      non_empty = subst (λ x. text_eq x [] ≡ false) b refl;
      before = inr b;
      each = λ x m. absurd m;
      among = inl b;
    }
unique_after-After s (raw ∷ raws) v e =
    turn-After v raw raws (λ s' e'. unique_after-After s' raws v e') s (trim_space raw) refl e

unique_non_empty_string-Unique :
    (values : List Text) (v : Text) → unique_non_empty_string values ≡ some v → Unique v values
unfolding unique_non_empty_string text_eq
unique_non_empty_string-Unique values v e =
    let a = unique_after-After [] values v e in
    record {
      non_empty = a.non_empty;
      each = a.each;
      among = elim a.among [
        | inl q ↦ absurd (ground (arith, a.non_empty, ap (λ x. text_eq x []) (sym q)))
        | inr found ↦ found
      ];
    }

-- The grounds of each reason.
unfoldable pub Justified : RoutingFacts → Text → Bool → RoutingReason → Type 0
Justified facts target is_squad RoutingReason.direct_agent_reply =
    (facts.is_reply ≡ true)
    × (facts.parent_is_agent ≡ true)
    × (trim_space facts.parent_author_id ≡ target)
    × (is_squad ≡ false)
Justified facts target is_squad RoutingReason.unique_thread_agent =
    (facts.is_reply ≡ true) × Unique target facts.thread_agent_ids × (is_squad ≡ false)
Justified facts target is_squad RoutingReason.issue_assignee =
    (facts.is_reply ≡ false)
    × (facts.assignee_type ≡ some AssigneeType.agent)
    × ((id : Text) × (facts.assignee_id ≡ some id) × (trim_space id ≡ target))
    × (is_squad ≡ false)
Justified facts target is_squad RoutingReason.issue_squad_assignee =
    (facts.is_reply ≡ false)
    × (facts.assignee_type ≡ some AssigneeType.squad)
    × ((id : Text) × (facts.assignee_id ≡ some id) × (trim_space id ≡ target))
    × (is_squad ≡ true)

module _ (facts : RoutingFacts) where
  abbrev Holds : Option Route → Type 0
  Holds o = (r : Route) → o ≡ some r → Justified facts r.target r.is_squad r.reason

  Holds-none : Holds none
  Holds-none r e = absurd (ground (arith, e))

  Holds-some : (r : Route) → Justified facts r.target r.is_squad r.reason → Holds (some r)
  Holds-some r j r' e =
      let same : r ≡ r' = ground (arith, e) in
      subst (λ (x : Route). Justified facts x.target x.is_squad x.reason) same j

  parent-Justified :
      (t : Text)
      → facts.is_reply ≡ true
      → facts.parent_is_agent ≡ true
      → trim_space facts.parent_author_id ≡ t
      → Holds (to_agent RoutingReason.direct_agent_reply t)
  unfolding Justified
  parent-Justified [] a b q = Holds-none
  parent-Justified (c ∷ s) a b q = Holds-some _ (a, b, q, refl)

  thread-Justified :
      (o : Option Text)
      → facts.is_reply ≡ true
      → unique_non_empty_string facts.thread_agent_ids ≡ o
      → Holds (to_thread o)
  unfolding Justified
  thread-Justified none a q = Holds-none
  thread-Justified (some v) a q =
      Holds-some _ (a, unique_non_empty_string-Unique facts.thread_agent_ids v q, refl)

  agent-Justified :
      (id t : Text)
      → facts.is_reply ≡ false
      → facts.assignee_type ≡ some AssigneeType.agent
      → facts.assignee_id ≡ some id
      → trim_space id ≡ t
      → Holds (to_agent RoutingReason.issue_assignee t)
  unfolding Justified
  agent-Justified id [] a b i q = Holds-none
  agent-Justified id (c ∷ s) a b i q = Holds-some _ (a, b, (id, i, q), refl)

  squad-Justified :
      (id t : Text)
      → facts.is_reply ≡ false
      → facts.assignee_type ≡ some AssigneeType.squad
      → facts.assignee_id ≡ some id
      → trim_space id ≡ t
      → Holds (to_squad t)
  unfolding Justified
  squad-Justified id [] a b i q = Holds-none
  squad-Justified id (c ∷ s) a b i q = Holds-some _ (a, b, (id, i, q), refl)

  assignee-Justified :
      (o : Option AssigneeType) (i : Option Text)
      → facts.is_reply ≡ false
      → facts.assignee_type ≡ o
      → facts.assignee_id ≡ i
      → Holds (to_assignee o i)
  assignee-Justified (some AssigneeType.agent) (some id) a b c =
      agent-Justified id (trim_space id) a b c refl
  assignee-Justified (some AssigneeType.squad) (some id) a b c =
      squad-Justified id (trim_space id) a b c refl
  assignee-Justified (some AssigneeType.other_assignee) (some id) a b c = Holds-none
  assignee-Justified none (some id) a b c = Holds-none
  assignee-Justified none none a b c = Holds-none
  assignee-Justified (some AssigneeType.agent) none a b c = Holds-none
  assignee-Justified (some AssigneeType.squad) none a b c = Holds-none
  assignee-Justified (some AssigneeType.other_assignee) none a b c = Holds-none

  or_else-Justified : (o p : Option Route) → Holds o → Holds p → Holds (or_else o p)
  or_else-Justified none p h k = k
  or_else-Justified (some r) p h k = h

-- A comment that mentions somebody has no implicit route. A route has the grounds of its reason: a
-- reply goes to the parent's author, who is an agent, or to the one agent of the thread, and
-- never to the assignee; a comment that is no reply goes to the assignee, an agent or a squad.
pub resolve_implicit_route-Justified :
    (facts : RoutingFacts) (route : Route)
    → resolve_implicit_route facts ≡ some route
    → (facts.has_explicit_mentions ≡ false)
      × Justified facts route.target route.is_squad route.reason
unfolding resolve_implicit_route
resolve_implicit_route-Justified facts route e =
    if-cases
      (λ (o : Option Route).
        o ≡ some route
        → (facts.has_explicit_mentions ≡ false)
          × Justified facts route.target route.is_squad route.reason)
      facts.has_explicit_mentions _ _ (λ _ q. absurd (ground (arith, q)))
      (λ m q. (
        m,
        if-cases (Holds facts) facts.is_reply _ _
            (λ a.
              or_else-Justified facts _ _
                (if-cases (Holds facts) facts.parent_is_agent _ _
                  (λ b. parent-Justified facts (trim_space facts.parent_author_id) a b refl)
                  (λ _. Holds-none facts))
                (thread-Justified facts _ a refl))
            (λ a. assignee-Justified facts facts.assignee_type facts.assignee_id a refl refl) route
            q,
      ))
      e
