-- ===== src/Store/Events.antt =====
-- Durable events (apps/server/internal/store/postgres/event_tx.go, evidence.go).
use agent_board.Prelude.{ℕ, ◌+◌, Bool, true, ◌&&◌, Option, none, some, [], ◌∷◌, ◌++◌, ◌==◌}
use agent_board.Prelude.Rows.{any}
use agent_board.Store.Types.{Run, Event, Db, Env, in_scope}
use agent_board.Store.Tx.{not_found, Tx, ◌>>=◌, ◌>>◌, pure, gets, modify, guard}
use agent_board.Store.Statements.{is_run, update_run}

abbrev agent_valid : ℕ → Option ℕ → Db → Bool
agent_valid project_id none db = true
agent_valid project_id (some agent_id) db =
    any (λ agent. agent.id == agent_id && in_scope agent.project_id project_id) db.agents

abbrev parent_event_valid : ℕ → Option ℕ → Db → Bool
parent_event_valid project_id none db = true
parent_event_valid project_id (some event_id) db =
    any (λ parent. parent.id == event_id && parent.project_id == project_id) db.events

-- validateEventReferences
unfoldable pub validate_event_references : Event → Tx (Unit {0})
validate_event_references input = do
  valid ← gets (λ db.
      agent_valid input.project_id input.agent_id db
      && parent_event_valid input.project_id input.parent_event_id db)
  guard valid not_found

abbrev pub next_sequence : Run → Run
next_sequence run = record run { event_sequence = run.event_sequence + 1 }

-- The run's next sequence number, or none for an event that belongs to no run.
unfoldable pub take_sequence : ℕ → Option ℕ → Tx (Option ℕ)
take_sequence project_id none = pure none
take_sequence project_id (some run_id) = do
  run ← update_run (is_run project_id run_id) next_sequence
  pure (some run.event_sequence)

-- appendEventTx. `input.id`, `input.occurred_at` and `input.sequence` are not read.
unfoldable pub append_event : Env → Event → Tx Event
append_event env input = do
  validate_event_references input
  sequence ← take_sequence input.project_id input.run_id
  id ← gets env.gen_random_uuid
  let event = record input { id = id; occurred_at = env.now; sequence = sequence }
  modify (λ db. record db { events = db.events ++ event ∷ [] })
  pure event
