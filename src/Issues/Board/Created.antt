-- ===== src/Issues/Board/Created.antt =====
-- board_order.go and core.go: the column of a new issue.
use agent_board.Prelude.{
  ℕ, ◌≡◌, refl, ap, true, false, ◌&&◌, Option, List, [], ◌∷◌, ◌++◌, ◌==◌, arith,
}
use agent_board.Prelude.Rows.{update}
use agent_board.Store.Tx.{Error, ok}
use agent_board.Store.Rules.{
  Ensures, Ensures-bind, Ensures-then, Ensures-gets, Ensures-guard, Ensures-modify, Ensures-pure,
  Ensures-fail, transact-Ensures,
}
use agent_board.Issues.Board.{IssueStatus, same_issue_status, BoardIssue, Board, in_column}
use agent_board.Issues.Board.Columns.{column}
use agent_board.Issues.Board.Insertion.{Ensures-reported}
use agent_board.Issues.Board.Creation.{
  NewIssuePlacement, top, bottom, other_placement, next_position, pushed_down,
  new_issue_board_position, create_issue, column-top, column-bottom, column-same,
  column-same_pushed,
}

-- The column with the new issue at the end that the project asks for.
abbrev pub with_new : NewIssuePlacement → ℕ → List ℕ → List ℕ
with_new top id ids = id ∷ ids
with_new bottom id ids = ids ++ id ∷ []
with_new other_placement id ids = ids

pub record Created (p id : ℕ) (s : IssueStatus) (placement : NewIssuePlacement)
    (board board' : Board) : Type 0 where
  pub now : column p s board' ≡ with_new placement id (column p s board)
  pub others :
      (q : ℕ) (t : IssueStatus)
      → (q == p && same_issue_status t s) ≡ false
      → column q t board' ≡ column q t board

module _ (id now p : ℕ) (s : IssueStatus) (board : Board) where
  -- The board after newIssueBoardPosition, and the position.
  abbrev MadeRoom : NewIssuePlacement → ℕ → Board → Type 0
  MadeRoom top position b = (position ≡ 0) × (b ≡ update (in_column p s) pushed_down board)
  MadeRoom bottom position b = (position ≡ next_position p s board) × (b ≡ board)
  MadeRoom other_placement position b = ⊥

  abbrev new_issue : ℕ → BoardIssue
  new_issue position = record {
    id = id;
    project_id = p;
    status = s;
    board_position = position;
    created_at = now;
  }

  new-in_column : (position : ℕ) → in_column p s (new_issue position) ≡ true
  new-in_column position = ground arith

  room-Ensures :
      (placement : NewIssuePlacement)
      → Ensures (λ db. db ≡ board) (new_issue_board_position p s placement) (MadeRoom placement)
  unfolding new_issue_board_position
  room-Ensures top =
      Ensures-then {Q = λ db. db ≡ update (in_column p s) pushed_down board} _ _
        (Ensures-modify _ (λ db e. ap (update (in_column p s) pushed_down) e))
        (Ensures-pure 0 (λ db e. (refl, e)))
  room-Ensures bottom = Ensures-gets _ (λ db e. (ap (next_position p s) e, e))
  room-Ensures other_placement = Ensures-fail _

  room-Created :
      (placement : NewIssuePlacement) (position : ℕ) (b : Board)
      → MadeRoom placement position b
      → Created p id s placement board (new_issue position ∷ b)
  room-Created top position b (z, e) = rw (e) (record {
    now = column-top p s (new_issue position) (new-in_column position) board z;
    others = column-same_pushed p s (new_issue position) (new-in_column position) board;
  })
  room-Created bottom position b (z, e) = rw (e) (record {
    now = column-bottom p s (new_issue position) (new-in_column position) board z;
    others = column-same p s (new_issue position) (new-in_column position) board;
  })
  room-Created other_placement position b m = absurd m

-- A new issue stands at the top or at the bottom of its column, as the project asks for, the issues
-- of the column keep their order, and every other column of every project is as it was.
pub create_issue-Created :
    (failure : Option Error) (id now p : ℕ) (s : IssueStatus) (placement : NewIssuePlacement)
    (board board' : Board)
    → create_issue failure id now p s placement board ≡ (ok tt, board')
    → Created p id s placement board board'
unfolding create_issue
create_issue-Created failure id now p s placement board board' h =
    transact-Ensures {P = λ db. db ≡ board} _
      (Ensures-bind {Q = MadeRoom id now p s board placement} _ _
        (room-Ensures id now p s board placement)
        λ position.
          Ensures-bind {Q = λ _. MadeRoom id now p s board placement position} _ _
            (Ensures-gets _ (λ db m. m))
            λ taken.
              Ensures-then {Q = MadeRoom id now p s board placement position} _ _
                (Ensures-guard _ _ (λ _ db m. m))
                (Ensures-then {Q = Created p id s placement board} _ _
                  (Ensures-modify _ (λ db m. room-Created id now p s board placement position db m))
                  (Ensures-reported failure)))
      board refl tt board' h
