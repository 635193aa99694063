-- ===== src/Issues/Board/Insertion.antt =====
-- board_order.go: an issue is put into a column, and the columns are renumbered.
use mathlib.Core.Path.{subst}
use agent_board.Prelude.{
  ℕ, ◌+◌, ◌≤◌, ◌≡◌, refl, sym, ap, ◌∙◌, false, ◌&&◌, Bool-cases, Option, none, some, List, ◌∷◌,
  ◌++◌, ◌==◌, ==→eq, inl, inr, if◌then◌else◌, arith,
}
use agent_board.Prelude.Rows.{In, In-append, first, any, count, count-append, update}
use agent_board.Prelude.Updates.{any-some}
use agent_board.Prelude.Counts.{count-none}
use agent_board.Prelude.Updates.{In-append_left, In-append_right}
use agent_board.Store.Tx.{Error}
use agent_board.Store.Rules.{Ensures, Ensures-pure, Ensures-fail}
use agent_board.Issues.Board.{
  IssueStatus, BoardIssue, Board, is_issue, same_issue_status, ordered_issue_ids,
  rewrite_issue_positions, reported,
}
use agent_board.Issues.Board.Renumber.{is_id, same_id}
use agent_board.Issues.Board.Moved.{rewrite-moved}
use agent_board.Issues.Board.Columns.{column, In-ordered, count-ordered}
use agent_board.Issues.Board.Placement.{Move, after, column-moved, column-other}

pub Ensures-reported :
    {P : Board → Type 0} (failure : Option Error) → Ensures P (reported failure) (λ _. P)
unfolding reported
Ensures-reported none = Ensures-pure tt (λ db p. p)
Ensures-reported (some e) = Ensures-fail e

-- What a move of an issue to a column does to the orders of the board: it stands in the column
-- between `left` and `right`, and every other order is as it was, without the issue.
pub record Moved (p id : ℕ) (destination : IssueStatus) (left right : List ℕ) (board board' : Board)
    : Type 0 where
  pub was : ordered_issue_ids p destination id board ≡ left ++ right
  pub now : column p destination board' ≡ left ++ id ∷ right
  pub others :
      (q : ℕ) (s : IssueStatus)
      → (q == p && same_issue_status s destination) ≡ false
      → column q s board' ≡ ordered_issue_ids q s id board

module _ (p id : ℕ) (destination : IssueStatus) (board : Board) (issue : BoardIssue)
    (unique : (k : ℕ) → count (is_id k) board ≤ 1)
    (is_row : first (is_issue p id) board ≡ some issue) (left right : List ℕ)
    (splits : ordered_issue_ids p destination id board ≡ left ++ right) where
  -- The issue itself is not in the list.
  no_id : (d : IssueStatus) → count (same_id id) (ordered_issue_ids p d id board) ≡ 0
  no_id d =
      count-none (same_id id) _
        (elim (Bool-cases (any (same_id id) (ordered_issue_ids p d id board))) [
          | inr n ↦ n
          | inl t ↦
              let (k, m, e) = any-some (same_id id) (ordered_issue_ids p d id board) t in
              let (r, i, u, v) = In-ordered p d id board k m in absurd (ground (arith, u, v, e))
        ])

  inserted-distinct : (k : ℕ) → count (same_id k) (left ++ id ∷ right) ≤ 1
  unfolding count
  inserted-distinct k =
      let c : count (same_id k) (ordered_issue_ids p destination id board)
          ≡ count (same_id k) left + count (same_id k) right =
        ap (count (same_id k)) splits ∙ count-append (same_id k) left right in
      elim (Bool-cases (id == k)) [
        | inl t ↦
            let e : id ≡ k = ==→eq id k t in
            let z : count (same_id k) (ordered_issue_ids p destination id board) ≡ 0 =
              subst (λ j. count (same_id j) (ordered_issue_ids p destination id board) ≡ 0) e
                (no_id destination) in
            ground (arith, count-append (same_id k) left (id ∷ right), t, c, z)
        | inr f ↦ ground (
          arith,
          count-append (same_id k) left (id ∷ right),
          f,
          c,
          count-ordered p destination id board k,
          unique k,
        )
      ]

  inserted-Move : Move p id destination board issue (left ++ id ∷ right)
  inserted-Move = record {
    unique = unique;
    is_row = is_row;
    mine = λ k m. elim (In-append left (id ∷ right) k m) [
      | inl a ↦ inr (subst (In k) (sym splits) (In-append_left left right k a))
      | inr (inl e) ↦ inl e
      | inr (inr b) ↦ inr (subst (In k) (sym splits) (In-append_right left right k b))
    ];
    has_id = In-append_right left (id ∷ right) id (inl refl);
    has_others = λ k m. elim (In-append left right k (subst (In k) splits m)) [
      | inl a ↦ In-append_left left (id ∷ right) k a
      | inr b ↦ In-append_right left (id ∷ right) k (inr b)
    ];
    distinct = inserted-distinct;
  }

  abbrev pub rewritten : Board
  rewritten =
      update (is_issue p id) (λ i. record i { status = destination })
        (rewrite_issue_positions p (left ++ id ∷ right) 0 (
          if same_issue_status issue.status destination
          then board
          else rewrite_issue_positions p (ordered_issue_ids p issue.status id board) 0 board))

  pub rewritten-Moved : Moved p id destination left right board rewritten
  unfolding update
  rewritten-Moved =
      let same : rewritten ≡ after p id destination board issue (left ++ id ∷ right) inserted-Move =
        rewrite-moved p id issue.status destination (ordered_issue_ids p issue.status id board)
          (left ++ id ∷ right) board
          (λ k. omega (arith, count-ordered p issue.status id board k, unique k))
          inserted-distinct in
      record {
        was = splits;
        now =
            ap (column p destination) same
            ∙ column-moved p id destination board issue (left ++ id ∷ right) inserted-Move;
        others = λ q s f.
            ap (column q s) same
            ∙ column-other p id destination board issue (left ++ id ∷ right) inserted-Move q s f;
      }
