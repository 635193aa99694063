-- ===== src/Examples/IssueBoard.antt =====
-- Three issues of the project 1 on its board, two of them to do, and one of another project.
use agent_board.Prelude.{ℕ, ◌≤◌, ◌≡◌, refl, ◌==◌, ◌&&◌, none, some, [], ◌∷◌, arith}
use agent_board.Prelude.Rows.{first, any, count, select, update}
use agent_board.Prelude.Sort.{insert, sort}
use agent_board.Prelude.Lists.{take, drop}
use agent_board.Store.Tx.{ok, pure, ◌>>=◌, ◌>>◌, gets, modify, found, guard, transact}
use agent_board.Issues.Board.{
  IssueStatus, todo, in_progress, BoardIssue, Board, ordered_issue_ids, rewrite_issue_positions,
  adjacent, between, placement_index, insert_at, renumbered, placed, reported, apply_issue_mutation,
  move_issue_to_status_top, IssuePlacement, place_issue, set_issue_status,
}
use agent_board.Issues.Board.Renumber.{is_id}
use agent_board.Issues.Board.Columns.{column}
use agent_board.Issues.Board.Refinement.{
  Placed, Restated, place_issue-Placed, set_issue_status-Restated,
}
use agent_board.Issues.Board.Accepted.{place_issue-ok}
use agent_board.Issues.Board.Creation.{top, next_position, new_issue_board_position, create_issue}
use agent_board.Issues.Board.Created.{Created, create_issue-Created}

abbrev issue_of : (id project_id : ℕ) → IssueStatus → (board_position : ℕ) → BoardIssue
issue_of id project_id status board_position = record {
  id = id;
  project_id = project_id;
  status = status;
  board_position = board_position;
  created_at = 7;
}

abbrev board : Board
board =
    issue_of 11 1 todo 4
    ∷ issue_of 12 1 in_progress 0
    ∷ issue_of 13 1 todo 2
    ∷ issue_of 14 2 todo 0
    ∷ []

board_unique : (k : ℕ) → count (is_id k) board ≤ 1
unfolding count
board_unique k = ground arith

-- The issue 12 goes between 13 and 11.
abbrev input : IssuePlacement
input = record {
  project_id = 1;
  issue_id = 12;
  status = some todo;
  before_id = some 13;
  after_id = some 11;
}

abbrev board_after : Board
board_after =
    issue_of 11 1 todo 2 ∷ issue_of 12 1 todo 1 ∷ issue_of 13 1 todo 0 ∷ issue_of 14 2 todo 0 ∷ []

placed_between : place_issue none input board ≡ (ok tt, board_after)
unfolding place_issue transact ◌>>=◌ ◌>>◌ gets modify found guard pure placed reported
    apply_issue_mutation renumbered insert_at rewrite_issue_positions ordered_issue_ids
    placement_index between adjacent first select update sort insert take drop
placed_between = refl

place_issue-Placed_example : Placed input board board_after
place_issue-Placed_example =
    place_issue-Placed none input board board_after board_unique placed_between

column_after : column 1 todo board_after ≡ 13 ∷ 12 ∷ 11 ∷ []
unfolding column select sort insert
column_after = refl

todo_ids : ordered_issue_ids 1 todo 12 board ≡ 13 ∷ 11 ∷ []
unfolding ordered_issue_ids select sort insert
todo_ids = refl

row_12 : first (λ i. i.project_id == 1 && i.id == 12) board ≡ some (issue_of 12 1 in_progress 0)
unfolding first
row_12 = refl

place_issue-ok_example : (b : Board) × (place_issue none input board ≡ (ok tt, b))
place_issue-ok_example =
    place_issue-ok input board (issue_of 12 1 in_progress 0) (13 ∷ []) (11 ∷ []) refl row_12
      todo_ids refl refl

-- The same issue by a change of its status.
abbrev board_on_top : Board
board_on_top =
    issue_of 11 1 todo 2 ∷ issue_of 12 1 todo 0 ∷ issue_of 13 1 todo 1 ∷ issue_of 14 2 todo 0 ∷ []

status_set : set_issue_status none 1 12 todo board ≡ (ok tt, board_on_top)
unfolding set_issue_status move_issue_to_status_top transact ◌>>=◌ ◌>>◌ gets modify found guard pure
    reported apply_issue_mutation rewrite_issue_positions ordered_issue_ids first select update sort
    insert
status_set = refl

set_issue_status-Restated_example : Restated 1 12 todo board board_on_top
set_issue_status-Restated_example =
    set_issue_status-Restated none 1 12 todo board board_on_top board_unique status_set

-- A new issue on top.
abbrev board_with_new : Board
board_with_new =
    issue_of 15 1 todo 0
    ∷ issue_of 11 1 todo 5
    ∷ issue_of 12 1 in_progress 0
    ∷ issue_of 13 1 todo 3
    ∷ issue_of 14 2 todo 0
    ∷ []

new_created : create_issue none 15 7 1 todo top board ≡ (ok tt, board_with_new)
unfolding create_issue new_issue_board_position next_position transact ◌>>=◌ ◌>>◌ gets modify guard
    pure reported any update
new_created = refl

create_issue-Created_example : Created 1 15 todo top board board_with_new
create_issue-Created_example =
    create_issue-Created none 15 7 1 todo top board board_with_new new_created
