-- ===== src/Issues/Board.antt =====
-- The order of a project's board: board_order.go of apps/server/internal/store/postgres, and what
-- CreateIssue, PlaceIssue and SetIssueStatus (core.go, issue_status.go) do to the positions. An id
-- and a time are numbers, 0 for the blank id.
pub mod Renumber
pub mod Moved
pub mod Columns
pub mod Placement
pub mod Neighbours
pub mod Insertion
pub mod Refinement
pub mod Accepted
pub mod Creation
pub mod Created
use agent_board.Prelude.{
  ℕ, suc, ◌+◌, Bool, true, false, not, ◌&&◌, ◌||◌, Option, none, some, List, [], ◌∷◌, ◌++◌, map,
  ◌==◌, ltb, if◌then◌else◌,
}
use agent_board.Prelude.Rows.{first, any, select, update}
use agent_board.Prelude.Sort.{sort}
use agent_board.Prelude.Lists.{take, drop}
use agent_board.Store.Tx.{
  Error, Result, ok, err, TxOn, invalid_argument, not_found, conflict, pure, fail, ◌>>=◌, ◌>>◌,
  gets, modify, found, guard, transact,
}

pub data IssueStatus : Type 0 where
  backlog todo in_progress blocked review done other_status : IssueStatus

abbrev pub issue_status_rank : IssueStatus → ℕ
issue_status_rank backlog = 0
issue_status_rank todo = 1
issue_status_rank in_progress = 2
issue_status_rank blocked = 3
issue_status_rank review = 4
issue_status_rank done = 5
issue_status_rank other_status = 6

abbrev pub same_issue_status : IssueStatus → IssueStatus → Bool
same_issue_status a b = issue_status_rank a == issue_status_rank b

-- ValidIssueStatus
abbrev pub valid_issue_status : IssueStatus → Bool
valid_issue_status s = ltb (issue_status_rank s) 6

pub record BoardIssue : Type 0 where
  pub id : ℕ
  pub project_id : ℕ
  pub status : IssueStatus
  pub board_position : ℕ
  pub created_at : ℕ

abbrev pub Board : Type 0
Board = List BoardIssue

abbrev pub is_issue : (project_id id : ℕ) → BoardIssue → Bool
is_issue project_id id i = i.project_id == project_id && i.id == id

abbrev pub in_column : (project_id : ℕ) → IssueStatus → BoardIssue → Bool
in_column project_id status i = i.project_id == project_id && same_issue_status i.status status

-- ORDER BY board_position, created_at, id
abbrev pub goes_above : BoardIssue → BoardIssue → Bool
goes_above a b =
    ltb a.board_position b.board_position
    || (a.board_position == b.board_position
        && (ltb a.created_at b.created_at || (a.created_at == b.created_at && ltb a.id b.id)))

abbrev pub issue_id : BoardIssue → ℕ
issue_id i = i.id

-- orderedIssueIDsTx
abbrev pub ordered_test : (project_id : ℕ) → IssueStatus → (exclude_id : ℕ) → BoardIssue → Bool
ordered_test project_id status exclude_id i =
    in_column project_id status i && not (i.id == exclude_id)

unfoldable pub ordered_issue_ids :
    (project_id : ℕ) → IssueStatus → (exclude_id : ℕ) → Board → List ℕ
unfolding sort select
ordered_issue_ids project_id status exclude_id board =
    map issue_id (sort goes_above (select (ordered_test project_id status exclude_id) board))

-- placementIndex, after the first two ids.
unfoldable pub adjacent : (before after previous : ℕ) → List ℕ → (index : ℕ) → Result ℕ
adjacent before after previous [] index = err conflict
adjacent before after previous (id ∷ ids) index =
    let rest = adjacent before after id ids (index + 1) in
    if previous == before && id == after then ok index else rest

abbrev pub last_is : ℕ → List ℕ → Bool
last_is id [] = false
last_is id (x ∷ []) = x == id
last_is id (x ∷ y ∷ ys) = last_is id (y ∷ ys)

abbrev pub first_is : ℕ → List ℕ → Bool
first_is id [] = false
first_is id (x ∷ xs) = x == id

abbrev pub count_ids : List ℕ → ℕ
count_ids [] = 0
count_ids (x ∷ xs) = suc (count_ids xs)

unfoldable pub between : (before after : ℕ) → List ℕ → Result ℕ
unfolding adjacent
between before after [] = err conflict
between before after (id ∷ ids) = adjacent before after id ids 1

unfoldable pub placement_index : List ℕ → (before_id after_id : Option ℕ) → Result ℕ
unfolding between
placement_index [] none none = ok 0
placement_index (id ∷ ids) none none = err conflict
placement_index ids none (some after) = if first_is after ids then ok 0 else err conflict
placement_index ids (some before) none =
    if last_is before ids then ok (count_ids ids) else err conflict
placement_index ids (some before) (some after) = between before after ids

-- rewriteIssuePositionsTx, from an index on.
unfoldable pub rewrite_issue_positions : (project_id : ℕ) → List ℕ → (index : ℕ) → Board → Board
unfolding update
rewrite_issue_positions project_id [] index board = board
rewrite_issue_positions project_id (id ∷ ids) index board =
    rewrite_issue_positions project_id ids (index + 1)
      (update (is_issue project_id id) (λ i. record i { board_position = index }) board)

-- The append, the copy and the assignment of PlaceIssue.
unfoldable pub insert_at : ℕ → ℕ → List ℕ → List ℕ
unfolding take drop
insert_at index id ids = take index ids ++ id ∷ drop index ids

-- moveIssueToStatusTopTx
unfoldable pub move_issue_to_status_top :
    (project_id issue_id : ℕ) → (source destination : IssueStatus) → Board → Board
unfolding ordered_issue_ids rewrite_issue_positions
move_issue_to_status_top project_id issue_id source destination board =
    if same_issue_status source destination
    then board
    else (let source_ids = ordered_issue_ids project_id source issue_id board in
        let destination_ids = ordered_issue_ids project_id destination issue_id board in
        rewrite_issue_positions project_id (issue_id ∷ destination_ids) 0
          (rewrite_issue_positions project_id source_ids 0 board))

-- Whether the run that a mutation enqueues and its event go through, as far as the board tells.
unfoldable pub reported : Option Error → TxOn Board (Unit {0})
unfolding pure fail
reported none = pure tt
reported (some e) = fail e

-- applyIssueMutationTx, as far as the board is concerned.
unfoldable pub apply_issue_mutation :
    (failure : Option Error) → (project_id id : ℕ) → IssueStatus → TxOn Board (Unit {0})
unfolding reported
apply_issue_mutation failure project_id id status = do
  modify (update (is_issue project_id id) (λ i. record i { status = status }))
  reported failure

pub record IssuePlacement : Type 0 where
  pub project_id : ℕ
  pub issue_id : ℕ
  pub status : Option IssueStatus
  pub before_id : Option ℕ
  pub after_id : Option ℕ

abbrev pub status_ok : Option IssueStatus → Bool
status_ok none = true
status_ok (some s) = valid_issue_status s

abbrev pub names : ℕ → Option ℕ → Bool
names id none = false
names id (some other) = other == id

abbrev pub same_neighbours : Option ℕ → Option ℕ → Bool
same_neighbours none after = false
same_neighbours (some before) after = names before after

abbrev pub valid_placement : IssuePlacement → Bool
valid_placement input =
    not (input.project_id == 0)
    && not (input.issue_id == 0)
    && status_ok input.status
    && not (names input.issue_id input.before_id)
    && not (names input.issue_id input.after_id)
    && not (same_neighbours input.before_id input.after_id)

abbrev pub status_or : IssueStatus → Option IssueStatus → IssueStatus
status_or previous none = previous
status_or previous (some s) = s

unfoldable pub placed : Result ℕ → TxOn Board ℕ
unfolding pure fail
placed (ok index) = pure index
placed (err e) = fail e

unfoldable pub renumbered :
    (project_id issue_id : ℕ) → (source destination : IssueStatus) → (index : ℕ) → Board → Board
unfolding ordered_issue_ids rewrite_issue_positions insert_at
renumbered project_id issue_id source destination index board =
    rewrite_issue_positions project_id
      (insert_at index issue_id (ordered_issue_ids project_id destination issue_id board)) 0
      (if same_issue_status source destination
        then board
        else rewrite_issue_positions project_id (ordered_issue_ids project_id source issue_id board)
            0 board)

-- PlaceIssue
unfoldable pub place_issue :
    (failure : Option Error) → IssuePlacement → Board → Result (Unit {0}) × Board
unfolding apply_issue_mutation ordered_issue_ids renumbered placement_index placed
place_issue failure input = transact do
  guard (valid_placement input) invalid_argument
  row ← gets (λ (board : Board). first (is_issue input.project_id input.issue_id) board)
  previous ← found row
  let destination : IssueStatus = status_or previous.status input.status
  ids ← gets (ordered_issue_ids input.project_id destination input.issue_id)
  index ← placed (placement_index ids input.before_id input.after_id)
  modify (renumbered input.project_id input.issue_id previous.status destination index)
  apply_issue_mutation failure input.project_id input.issue_id destination

-- SetIssueStatus of a mutation that comes from no run.
unfoldable pub set_issue_status :
    (failure : Option Error)
    → (project_id issue_id : ℕ) → IssueStatus
    → Board
    → Result (Unit {0}) × Board
unfolding apply_issue_mutation move_issue_to_status_top
set_issue_status failure project_id issue_id status = transact do
  guard (valid_issue_status status) invalid_argument
  row ← gets (λ (board : Board). first (is_issue project_id issue_id) board)
  previous ← found row
  if same_issue_status previous.status status then pure tt else do
    modify (move_issue_to_status_top project_id issue_id previous.status status)
    apply_issue_mutation failure project_id issue_id status
