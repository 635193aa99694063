-- ===== src/Coordinator/Workers.antt =====
-- coordinator.go: the loop of Run, and the slots of its workers.
pub mod Slots
use agent_board.Prelude.{
  ℕ, suc, ◌+◌, ◌-◌, ◌≤◌, ◌≡◌, refl, Bool, true, false, Option, none, some, List, [], ◌∷◌, ltb,
  if◌then◌else◌, arith,
}

-- What the calls of one pass through the loop return, up to the first that ends it:
-- reconcileOne, reconcilePendingAgentWorkRequest and AdmitNextJob.
pub data Pass : Type 0 where
  reconcile_failed reconcile_active reconcile_handled : Pass
  work_failed work_handled : Pass
  admit_failed admit_nothing admitted : Pass

-- Where the pass leaves the loop: at its head, waiting for the poll interval first, or blocked on a
-- slot until a worker ends.
pub data Next : Type 0 where
  again polls blocked : Next

-- reserveSlot: a send on a channel of `max` places that `used` messages fill.
unfoldable pub reserve_slot : ℕ → ℕ → Option ℕ
reserve_slot max used = if ltb used max then some (suc used) else none

-- startWorker, and launchWorker, whose worker holds the slot until it ends.
abbrev pub worker_started : ℕ → Option ℕ → Next × ℕ
worker_started used none = (blocked, used)
worker_started used (some used') = (again, used')

abbrev pub admission_next : Pass → ℕ → Option ℕ → Next × ℕ
admission_next outcome used none = (blocked, used)
admission_next admitted used (some used') = (again, used')
admission_next _ used (some used') = (polls, used' - 1)

-- One pass of Run: the next point of the loop and the slots in use.
unfoldable pub run_pass : ℕ → Pass → ℕ → Next × ℕ
unfolding reserve_slot
run_pass max reconcile_failed used = (polls, used)
run_pass max reconcile_active used = worker_started used (reserve_slot max used)
run_pass max reconcile_handled used = (again, used)
run_pass max work_failed used = (polls, used)
run_pass max work_handled used = (again, used)
run_pass max admit_failed used = admission_next admit_failed used (reserve_slot max used)
run_pass max admit_nothing used = admission_next admit_nothing used (reserve_slot max used)
run_pass max admitted used = admission_next admitted used (reserve_slot max used)
