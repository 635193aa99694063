-- ===== src/Scheduler/Capacity/History.antt =====
-- The capacity invariant over every history of the scheduler's store.
use agent_board.Prelude.{List}
use agent_board.Store.Types.{Db}
use agent_board.Scheduler.Calls.{Call, run_calls}
use agent_board.Scheduler.Frame.History.{run_calls-Keeps}
use agent_board.Scheduler.Capacity.{Inv}
use agent_board.Scheduler.Capacity.Steps.{Inv-Frame}
use agent_board.Scheduler.Capacity.Admission.{admit_next_job-Inv}

-- No history of enqueues, admissions, lease renewals, transitions, claims of expired jobs,
-- reconciliations, cancellations and releases takes an agent, a model profile or a runner past its
-- limit: from a database whose keys are unique and whose reservations are within the limits, every
-- database that follows is one.
pub run_calls-Inv : (db : Db) (calls : List Call) → Inv db → Inv (run_calls db calls)
run_calls-Inv = run_calls-Keeps Inv-Frame admit_next_job-Inv
