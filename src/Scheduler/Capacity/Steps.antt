-- ===== src/Scheduler/Capacity/Steps.antt =====
-- The capacity relation under every transaction but an admission: it fills `Frame`.
use agent_board.Prelude.{◌≡◌, refl, ◌∙◌}
use agent_board.Store.Types.{Db}
use agent_board.Store.Tx.{modify}
use agent_board.Store.Rules.{Keeps}
use agent_board.Store.Keeps.{Keeps-modify}
use agent_board.Store.Statements.{delete_reservations}
use agent_board.Store.Rules.{Ensures-weaken}
use agent_board.Scheduler.Frame.{Frame}
use agent_board.Scheduler.Capacity.{Inv, Keeps-Inv, Shrinks, Shrinks-delete}

module _ (d : Db) where
  -- A write that touches neither limits nor reservations.
  pub Shrinks-modify :
      (f : Db → Db)
      → ((db : Db)
          → ((f db).agents ≡ db.agents)
            × ((f db).models ≡ db.models)
            × ((f db).runners ≡ db.runners)
            × ((f db).reservations ≡ db.reservations))
      → Keeps (Shrinks d) (modify f)
  Shrinks-modify f h = Keeps-modify f λ db s. record {
    same_agents = (h db).0 ∙ s.same_agents;
    same_models = (h db).1 ∙ s.same_models;
    same_runners = (h db).2 ∙ s.same_runners;
    fewer = λ kind id. rw ((h db).3) (s.fewer kind id);
  }

pub Shrinks-Frame : (d : Db) → Frame (Shrinks d)
unfolding delete_reservations
Shrinks-Frame d = record {
  jobs = λ g. Shrinks-modify d _ (λ db. (refl, refl, refl, refl));
  leases = λ g. Shrinks-modify d _ (λ db. (refl, refl, refl, refl));
  events = λ g. Shrinks-modify d _ (λ db. (refl, refl, refl, refl));
  work_requests = λ g. Shrinks-modify d _ (λ db. (refl, refl, refl, refl));
  delegations = λ g. Shrinks-modify d _ (λ db. (refl, refl, refl, refl));
  reviews = λ g. Shrinks-modify d _ (λ db. (refl, refl, refl, refl));
  questions = λ g h. Shrinks-modify d _ (λ db. (refl, refl, refl, refl));
  deletes = λ test. Keeps-modify _ (λ db s. Shrinks-delete test d db s);
  runs = λ test change h. Shrinks-modify d _ (λ db. (refl, refl, refl, refl));
  fenced = λ p r change h.
      Ensures-weaken _ (λ db x. x.0) (Shrinks-modify d _ (λ db. (refl, refl, refl, refl)));
}

pub Inv-Frame : Frame Inv
Inv-Frame = record {
  jobs = λ g. Keeps-Inv _ (λ d. Frame.jobs (Shrinks-Frame d) g);
  leases = λ g. Keeps-Inv _ (λ d. Frame.leases (Shrinks-Frame d) g);
  events = λ g. Keeps-Inv _ (λ d. Frame.events (Shrinks-Frame d) g);
  work_requests = λ g. Keeps-Inv _ (λ d. Frame.work_requests (Shrinks-Frame d) g);
  delegations = λ g. Keeps-Inv _ (λ d. Frame.delegations (Shrinks-Frame d) g);
  reviews = λ g. Keeps-Inv _ (λ d. Frame.reviews (Shrinks-Frame d) g);
  questions = λ g h. Keeps-Inv _ (λ d. Frame.questions (Shrinks-Frame d) g h);
  deletes = λ test. Keeps-Inv _ (λ d. Frame.deletes (Shrinks-Frame d) test);
  runs = λ test change h. Keeps-Inv _ (λ d. Frame.runs (Shrinks-Frame d) test change h);
  fenced = λ p r change h.
      Ensures-weaken _ (λ db x. x.0)
        (Keeps-Inv _ (λ d. Shrinks-modify d _ (λ db. (refl, refl, refl, refl))));
}
