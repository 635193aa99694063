-- ===== src/Coordinator/Workers/Slots.antt =====
-- coordinator.go, Run: the workers that run at once.
use agent_board.Prelude.{
  ℕ, suc, ◌-◌, ◌≤◌, ◌≡◌, refl, Bool, true, false, List, [], ◌∷◌, if◌then◌else◌, arith,
}
use agent_board.Coordinator.Workers.{
  Pass, reconcile_failed, reconcile_active, reconcile_handled, work_failed, work_handled,
  admit_failed, admit_nothing, admitted, Next, again, reserve_slot, run_pass,
}

-- The slots in use and the workers that run.
pub record Loop : Type 0 where
  pub used : ℕ
  pub workers : ℕ

-- A pass of the loop, or the end of a worker, which gives its slot back.
pub data Turn : Type 0 where
  passes : Pass → Turn
  ends : Turn

abbrev pub launches : Pass → Next → Bool
launches reconcile_active again = true
launches admitted again = true
launches _ _ = false

unfoldable pub turn : ℕ → Loop → Turn → Loop
turn max s (passes p) =
    let r = run_pass max p s.used in
    record { used = r.1; workers = if launches p r.0 then suc s.workers else s.workers }
turn max s ends = record { used = s.used - 1; workers = s.workers - 1 }

unfoldable pub run_turns : ℕ → Loop → List Turn → Loop
run_turns max s [] = s
run_turns max s (t ∷ ts) = run_turns max (turn max s t) ts

pub record Balanced (max : ℕ) (s : Loop) : Type 0 where
  pub held : s.used ≡ s.workers
  pub bounded : s.workers ≤ max

turn-Balanced : (max : ℕ) (s : Loop) (t : Turn) → Balanced max s → Balanced max (turn max s t)
unfolding turn run_pass reserve_slot
turn-Balanced max s ends b = record {
  held = omega (arith, b.held);
  bounded = omega (arith, b.bounded);
}
turn-Balanced max s (passes reconcile_failed) b = record { held = b.held; bounded = b.bounded }
turn-Balanced max s (passes reconcile_handled) b = record { held = b.held; bounded = b.bounded }
turn-Balanced max s (passes work_failed) b = record { held = b.held; bounded = b.bounded }
turn-Balanced max s (passes work_handled) b = record { held = b.held; bounded = b.bounded }
turn-Balanced max s (passes reconcile_active) b = record {
  held = ground (arith, b.held);
  bounded = ground (arith, b.held, b.bounded);
}
turn-Balanced max s (passes admitted) b = record {
  held = ground (arith, b.held);
  bounded = ground (arith, b.held, b.bounded);
}
turn-Balanced max s (passes admit_failed) b = record {
  held = ground (arith, b.held);
  bounded = ground (arith, b.held, b.bounded);
}
turn-Balanced max s (passes admit_nothing) b = record {
  held = ground (arith, b.held);
  bounded = ground (arith, b.held, b.bounded);
}

turns-Balanced :
    (max : ℕ) (s : Loop) (ts : List Turn) → Balanced max s → Balanced max (run_turns max s ts)
unfolding run_turns
turns-Balanced max s [] b = b
turns-Balanced max s (t ∷ ts) b = turns-Balanced max (turn max s t) ts (turn-Balanced max s t b)

-- Through every sequence of passes of the loop and ends of workers, from the start, every worker
-- that runs holds one slot, no slot is lost, and at most `max` workers, the setting MaxInFlight,
-- run at once.
pub run_turns-Balanced :
    (max : ℕ) (turns : List Turn)
    → Balanced max (run_turns max (record { used = 0; workers = 0 }) turns)
run_turns-Balanced max turns =
    turns-Balanced max _ turns (record { held = refl; bounded = omega arith })
