-- ===== src/Issues/Board/Accepted.antt =====
-- board_order.go: the neighbours that PlaceIssue accepts.
use agent_board.Prelude.{
  ℕ, ◌+◌, ◌≡◌, refl, ap, ◌∙◌, true, ◌&&◌, Bool-cases, Option, none, some, List, [], ◌∷◌, ◌++◌, ◌==◌,
  inl, inr, arith,
}
use agent_board.Prelude.Rows.{first, update}
use agent_board.Store.Tx.{ok, pure, ◌>>=◌, ◌>>◌, gets, modify, found, guard, transact}
use agent_board.Issues.Board.{
  BoardIssue, Board, is_issue, ordered_issue_ids, last_is, count_ids, adjacent, between,
  placement_index, renumbered, IssuePlacement, valid_placement, status_or, placed, reported,
  apply_issue_mutation, place_issue,
}
use agent_board.Issues.Board.Neighbours.{head_id, last_id}

adjacent-ok :
    (b a x : ℕ) (xs ys : List ℕ) (k : ℕ)
    → last_id (x ∷ xs) ≡ some b
    → (j : ℕ) × (adjacent b a x (xs ++ a ∷ ys) k ≡ ok j)
unfolding adjacent
adjacent-ok b a x [] ys k l = (k, ground (arith, l))
adjacent-ok b a x (y ∷ xs) ys k l = elim (Bool-cases (x == b && y == a)) [
  | inl t ↦ (k, rw (t) refl)
  | inr f ↦ let (j, e) = adjacent-ok b a y xs ys (k + 1) l in (j, rw (f) e)
]

last-last_is : (b : ℕ) (ids : List ℕ) → last_id ids ≡ some b → last_is b (ids ++ []) ≡ true
last-last_is b [] h = absurd (ground (arith, h))
last-last_is b (x ∷ []) h = ground (arith, h)
last-last_is b (x ∷ y ∷ ys) h = last-last_is b (y ∷ ys) h

no_last : (x : ℕ) (xs : List ℕ) → last_id (x ∷ xs) ≡ none → ⊥
no_last x [] h = ground (arith, h)
no_last x (y ∷ ys) h = no_last y ys h

-- The neighbours of a place in a list of ids.
pub placement_index-ok :
    (left right : List ℕ) (before after : Option ℕ)
    → last_id left ≡ before
    → head_id right ≡ after
    → (index : ℕ) × (placement_index (left ++ right) before after ≡ ok index)
unfolding placement_index between
placement_index-ok [] [] none none l h = (0, refl)
placement_index-ok [] (y ∷ ys) none (some a) l h = (0, ground (arith, h))
placement_index-ok (x ∷ xs) [] (some b) none l h =
    (count_ids ((x ∷ xs) ++ []), rw (last-last_is b (x ∷ xs) l) refl)
placement_index-ok (x ∷ xs) (y ∷ ys) (some b) (some a) l h =
    let e : y ≡ a = ground (arith, h) in rw (e) (adjacent-ok b a x xs ys 1 l)
placement_index-ok [] [] (some b) after l h = absurd (ground (arith, l))
placement_index-ok [] (y ∷ ys) (some b) after l h = absurd (ground (arith, l))
placement_index-ok [] [] none (some a) l h = absurd (ground (arith, h))
placement_index-ok [] (y ∷ ys) none none l h = absurd (ground (arith, h))
placement_index-ok (x ∷ xs) right none after l h = absurd (no_last x xs l)
placement_index-ok (x ∷ xs) [] (some b) (some a) l h = absurd (ground (arith, h))
placement_index-ok (x ∷ xs) (y ∷ ys) (some b) none l h = absurd (ground (arith, h))

-- A placement that is well formed, of an issue that exists, between two issues that stand next to
-- each other in the column without the issue (or before its first, after its last, or in an empty
-- column), succeeds, unless the rest of the mutation fails.
pub place_issue-ok :
    (input : IssuePlacement) (board : Board) (issue : BoardIssue) (left right : List ℕ)
    → valid_placement input ≡ true
    → first (is_issue input.project_id input.issue_id) board ≡ some issue
    → ordered_issue_ids input.project_id (status_or issue.status input.status) input.issue_id board
      ≡ left ++ right
    → last_id left ≡ input.before_id
    → head_id right ≡ input.after_id
    → (board' : Board) × (place_issue none input board ≡ (ok tt, board'))
unfolding place_issue transact ◌>>=◌ ◌>>◌ gets modify found guard pure placed reported
    apply_issue_mutation
place_issue-ok input board issue left right v e splits l h =
    let (index, p) = placement_index-ok left right input.before_id input.after_id l h in
    let d = status_or issue.status input.status in
    let here : placement_index (ordered_issue_ids input.project_id d input.issue_id board)
          input.before_id input.after_id
        ≡ ok index =
      ap (λ ids. placement_index ids input.before_id input.after_id) splits ∙ p in
    (
      update (is_issue input.project_id input.issue_id) (λ i. record i { status = d })
          (renumbered input.project_id input.issue_id issue.status d index board),
      rw (v) (rw (e, transact) (rw (here, transact) refl)),
    )
