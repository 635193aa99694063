-- ===== src/Scheduler/Reviews.antt =====
-- scheduler_transition.go: createPendingReview, the review that READY_FOR_REVIEW asks for.
use agent_board.Prelude.{
  Bool, true, false, not, ◌&&◌, ◌||◌, Option, none, some, [], ◌∷◌, ◌++◌, ◌==◌, coalesce,
}
use agent_board.Prelude.Text.{Text, trim_space, is_blank, text_eq}
use agent_board.Prelude.Rows.{first}
use agent_board.Store.Types.{Run, ReviewStatus, Review}
use agent_board.Store.Tx.{conflict, Tx, ◌>>=◌, ◌>>◌, gets, modify, found, guard}

abbrev pub is_pending : ReviewStatus → Bool
is_pending ReviewStatus.pending = true
is_pending _ = false

abbrev pub new_review : Run → Text → Text → Review
new_review run base review = record {
  project_id = run.project_id;
  issue_id = run.issue_id;
  run_id = run.id;
  status = ReviewStatus.pending;
  base_revision = some base;
  review_revision = some review;
}

-- The persisted review is the one that would have been inserted.
abbrev pub agrees : Run → Text → Text → Review → Bool
agrees run base review r =
    r.project_id == run.project_id
    && r.issue_id == run.issue_id
    && is_pending r.status
    && text_eq (coalesce r.base_revision []) base
    && text_eq (coalesce r.review_revision []) review

-- INSERT … ON CONFLICT (run_id) DO NOTHING, and the check of the review that is there.
unfoldable pub insert_review : Run → Text → Text → Option Review → Tx (Unit {0})
insert_review run base review none =
    modify (λ db. record db { reviews = db.reviews ++ new_review run base review ∷ [] })
insert_review run base review (some existing) = guard (agrees run base review existing) conflict

-- createPendingReview
unfoldable pub create_pending_review : Run → Tx (Unit {0})
unfolding insert_review
create_pending_review run = do
  row ← gets (λ db.
      first
        (λ w.
          w.project_id == run.project_id && w.issue_id == run.issue_id && w.id == run.workspace_id)
        db.workspaces)
  workspace ← found row
  let base = trim_space (coalesce workspace.base_revision [])
  let review = trim_space (coalesce workspace.current_revision [])
  guard (not (is_blank base || is_blank review)) conflict
  existing ← gets (λ db. first (λ (r : Review). r.run_id == run.id) db.reviews)
  insert_review run base review existing
