-- ===== src/Issues/Board/Refinement.antt =====
-- board_order.go: PlaceIssue and SetIssueStatus on the orders that a reader of the board sees.
use mathlib.Core.Path.{subst}
use agent_board.Prelude.{
  ℕ, ◌≤◌, ◌≡◌, refl, sym, ap, ◌∙◌, ◌⊎◌, true, false, Option, some, List, [], inl, inr,
}
use agent_board.Prelude.Rows.{first, count, update}
use agent_board.Prelude.Lists.{take, drop, take-drop}
use agent_board.Store.Tx.{Error, Result, ok, err, ◌>>◌, modify}
use agent_board.Store.Rules.{
  Ensures, Ensures-bind, Ensures-then, Ensures-gets, Ensures-found, Ensures-guard, Ensures-modify,
  Ensures-if, Ensures-pure, Ensures-fail, transact-Ensures,
}
use agent_board.Issues.Board.{
  IssueStatus, BoardIssue, Board, is_issue, same_issue_status, ordered_issue_ids, placement_index,
  insert_at, renumbered, move_issue_to_status_top, IssuePlacement, status_or, placed,
  apply_issue_mutation, place_issue, set_issue_status,
}
use agent_board.Issues.Board.Renumber.{is_id}
use agent_board.Issues.Board.Neighbours.{head_id, last_id, placement_index-Splits}
use agent_board.Issues.Board.Insertion.{Ensures-reported, Moved, rewritten-Moved}

-- The issue that a call moves, and what it does to the orders.
pub record Placed (input : IssuePlacement) (board board' : Board) : Type 0 where
  pub issue : BoardIssue
  pub is_row : first (is_issue input.project_id input.issue_id) board ≡ some issue
  pub left : List ℕ
  pub right : List ℕ
  pub moves :
      Moved input.project_id input.issue_id
        (status_or issue.status input.status)
        left
        right
        board
        board'
  pub is_before : last_id left ≡ input.before_id
  pub is_after : head_id right ≡ input.after_id

module _ (board : Board) (unique : (k : ℕ) → count (is_id k) board ≤ 1) where
  Ensures-placed :
      {P : Board → Type 0} (r : Result ℕ) → Ensures P (placed r) (λ index db. P db × (r ≡ ok index))
  unfolding placed
  Ensures-placed (ok index) = Ensures-pure index (λ db p. (p, refl))
  Ensures-placed (err e) = Ensures-fail e

  mutated :
      (failure : Option Error) (p id : ℕ) (s : IssueStatus) (b : Board)
      → Ensures
          (λ db. db ≡ b)
          (apply_issue_mutation failure p id s)
          (λ _ db. db ≡ update (is_issue p id) (λ i. record i { status = s }) b)
  unfolding apply_issue_mutation
  mutated failure p id s b =
      Ensures-then {Q = λ db. db ≡ update (is_issue p id) (λ i. record i { status = s }) b} _ _
        (Ensures-modify _ (λ db e. ap (update (is_issue p id) (λ i. record i { status = s })) e))
        (Ensures-reported failure)

  renumbered-Placed :
      (input : IssuePlacement) (issue : BoardIssue) (index : ℕ) (board' : Board)
      → first (is_issue input.project_id input.issue_id) board ≡ some issue
      → placement_index
          (ordered_issue_ids input.project_id
            (status_or issue.status input.status)
            input.issue_id
            board)
          input.before_id
          input.after_id
        ≡ ok index
      → board'
        ≡ update
            (is_issue input.project_id input.issue_id)
            (λ i. record i { status = status_or issue.status input.status })
            (renumbered input.project_id input.issue_id issue.status
              (status_or issue.status input.status)
              index
              board)
      → Placed input board board'
  unfolding renumbered insert_at
  renumbered-Placed input issue index board' e place same =
      let d = status_or issue.status input.status in
      let ids = ordered_issue_ids input.project_id d input.issue_id board in
      let s = placement_index-Splits ids input.before_id input.after_id index place in
      record {
        issue = issue;
        is_row = e;
        left = take index ids;
        right = drop index ids;
        moves =
            subst (Moved input.project_id input.issue_id d (take index ids) (drop index ids) board)
              (sym same)
              (rewritten-Moved input.project_id input.issue_id d board issue unique e
                (take index ids) (drop index ids) (sym (take-drop index ids)));
        is_before = s.0;
        is_after = s.1;
      }

  place_body-Placed :
      (failure : Option Error) (input : IssuePlacement) (issue : BoardIssue)
      → first (is_issue input.project_id input.issue_id) board ≡ some issue
      → (index : ℕ)
      → placement_index
          (ordered_issue_ids input.project_id
            (status_or issue.status input.status)
            input.issue_id
            board)
          input.before_id
          input.after_id
        ≡ ok index
      → Ensures
          (λ db. db ≡ board)
          (modify (
              renumbered input.project_id input.issue_id issue.status
                (status_or issue.status input.status)
                index)
            >> apply_issue_mutation failure input.project_id input.issue_id
                (status_or issue.status input.status))
          (λ _ db. Placed input board db)
  place_body-Placed failure input issue e index place =
      let d = status_or issue.status input.status in
      let r = renumbered input.project_id input.issue_id issue.status d index in
      Ensures-then {Q = λ db. db ≡ r board} _ _ (Ensures-modify r (λ db h. ap r h)) (record {
        at = λ db h t db' q.
            renumbered-Placed input issue index db' e place
              ((mutated failure input.project_id input.issue_id d (r board)).at db h t db' q);
      })

-- PlaceIssue moves an issue on the board as it is asked to: where no two issues share an id and the
-- call succeeds, the column that it goes to has its old order with the issue put between the two
-- neighbours named (at an end where one is not named, alone where none is), and every other column,
-- of this project and of others, has its old order without the issue.
pub place_issue-Placed :
    (failure : Option Error) (input : IssuePlacement) (board board' : Board)
    → ((k : ℕ) → count (is_id k) board ≤ 1)
    → place_issue failure input board ≡ (ok tt, board')
    → Placed input board board'
unfolding place_issue
place_issue-Placed failure input board board' unique h =
    transact-Ensures {P = λ db. db ≡ board} _
      (Ensures-then {Q = λ db. db ≡ board} _ _ (Ensures-guard _ _ (λ _ db e. e)) (
        Ensures-bind
          {Q = λ row db.
            (db ≡ board) × (first (is_issue input.project_id input.issue_id) board ≡ row)}
          _ _
          (Ensures-gets _
            (λ db e. (e, ap (first (is_issue input.project_id input.issue_id)) (sym e))))
          λ row.
            Ensures-bind
              {Q = λ issue db.
                (db ≡ board)
                × (first (is_issue input.project_id input.issue_id) board ≡ some issue)}
              _ _ (Ensures-found row (λ issue t db e. (e.0, e.1 ∙ t)))
              λ issue.
                Ensures-bind
                  {Q = λ ids db.
                    (db ≡ board)
                    × (first (is_issue input.project_id input.issue_id) board ≡ some issue)
                    × (ordered_issue_ids input.project_id (status_or issue.status input.status)
                          input.issue_id board
                        ≡ ids)}
                  _ _
                  (Ensures-gets _ (λ db e. (
                    e.0,
                    e.1,
                    ap
                        (ordered_issue_ids input.project_id (status_or issue.status input.status)
                          input.issue_id)
                        (sym e.0),
                  )))
                  λ ids.
                    Ensures-bind
                      {Q = λ index db.
                        ((db ≡ board)
                          × (first (is_issue input.project_id input.issue_id) board ≡ some issue)
                          × (ordered_issue_ids input.project_id
                                (status_or issue.status input.status) input.issue_id board
                              ≡ ids))
                        × (placement_index ids input.before_id input.after_id ≡ ok index)}
                      _ _
                      (Ensures-placed board unique
                        (placement_index ids input.before_id input.after_id))
                      λ index. record {
                        at = λ db e t db' q.
                            (place_body-Placed board unique failure input issue e.0.1 index (
                                ap (λ l. placement_index l input.before_id input.after_id) e.0.2
                                ∙ e.1)).at
                              db e.0.0 t db' q;
                      }))
      board refl tt board' h

-- What SetIssueStatus does: nothing where the issue has the status; otherwise the issue goes to the
-- top of its new column.
pub record Restated (p id : ℕ) (status : IssueStatus) (board board' : Board) : Type 0 where
  pub issue : BoardIssue
  pub is_row : first (is_issue p id) board ≡ some issue
  pub moves :
      ((same_issue_status issue.status status ≡ true) × (board' ≡ board))
      ⊎ Moved p id status [] (ordered_issue_ids p status id board) board board'

restated :
    (p id : ℕ) (status : IssueStatus) (issue : BoardIssue) (board board' : Board)
    → ((k : ℕ) → count (is_id k) board ≤ 1)
    → first (is_issue p id) board ≡ some issue
    → same_issue_status issue.status status ≡ false
    → board'
      ≡ update
          (is_issue p id)
          (λ i. record i { status = status })
          (move_issue_to_status_top p id issue.status status board)
    → Restated p id status board board'
unfolding move_issue_to_status_top
restated p id status issue board board' unique e f same = record {
  issue = issue;
  is_row = e;
  moves = inr (
      subst (Moved p id status [] (ordered_issue_ids p status id board) board)
        (sym (same ∙ rw (f) refl))
        (rewritten-Moved p id status board issue unique e [] (ordered_issue_ids p status id board)
          refl));
}

-- A change of the status of an issue that comes from no run, where no two issues share an id and the
-- call succeeds, changes nothing if the issue has the status; otherwise it puts the issue at the top
-- of the column of the status, leaves the order below it, and every other column has its old order
-- without the issue.
pub set_issue_status-Restated :
    (failure : Option Error) (p id : ℕ) (status : IssueStatus) (board board' : Board)
    → ((k : ℕ) → count (is_id k) board ≤ 1)
    → set_issue_status failure p id status board ≡ (ok tt, board')
    → Restated p id status board board'
unfolding set_issue_status
set_issue_status-Restated failure p id status board board' unique h =
    transact-Ensures {P = λ db. db ≡ board} _
      (Ensures-then {Q = λ db. db ≡ board} _ _ (Ensures-guard _ _ (λ _ db e. e)) (
        Ensures-bind {Q = λ row db. (db ≡ board) × (first (is_issue p id) board ≡ row)} _ _
          (Ensures-gets _ (λ db e. (e, ap (first (is_issue p id)) (sym e))))
          λ row.
            Ensures-bind {Q = λ issue db. (db ≡ board) × (first (is_issue p id) board ≡ some issue)}
              _ _ (Ensures-found row (λ issue t db e. (e.0, e.1 ∙ t)))
              λ issue.
                Ensures-if (same_issue_status issue.status status) _ _
                  (λ t.
                    Ensures-pure tt
                      (λ db e. record { issue = issue; is_row = e.1; moves = inl (t, e.0) }))
                  (λ f.
                    let m = move_issue_to_status_top p id issue.status status in
                    Ensures-then
                      {Q = λ db. (db ≡ m board) × (first (is_issue p id) board ≡ some issue)} _ _
                      (Ensures-modify m (λ db e. (ap m e.0, e.1)))
                      (record {
                        at = λ db e t db' q. restated p id status issue board db' unique e.1 f (
                            (mutated board unique failure p id status (m board)).at db e.0 t db' q);
                      }))))
      board refl tt board' h
