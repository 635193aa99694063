-- ===== src/Scheduler/Delegations.antt =====
-- delegation_result.go and agent_work_requests.go: what a terminal run hands to its parent.
use agent_board.Prelude.{
  ℕ, Bool, true, false, ◌&&◌, ◌||◌, Option, none, some, List, [], ◌∷◌, ◌==◌, ltb, is_value, is_null,
  coalesce, if◌then◌else◌,
}
use agent_board.Prelude.Text.{Text, trim_space, is_blank, text_eq, btrim, take_runes, codes}
use agent_board.Prelude.Rows.{any, select, update}
use agent_board.Store.Types.{
  Run, RunStatus, DelegationOutcome, EventType, Payload, Event, AgentWorkRequest, Env,
}
use agent_board.Store.Tx.{invalid_argument, Tx, ◌>>=◌, pure, fail, gets, modify}

abbrev pub of_request : ℕ → ℕ → AgentWorkRequest → Bool
of_request project_id run_id r = r.project_id == project_id && is_value r.run_id run_id

-- sealAgentWorkRequestsForRunTx
unfoldable pub seal_agent_work_requests : Env → ℕ → ℕ → Tx (Unit {0})
seal_agent_work_requests env project_id run_id = modify (λ db. record db {
  work_requests =
      update (λ r. of_request project_id run_id r && is_null r.sealed_at)
        (λ r. record r { sealed_at = some env.now; updated_at = env.now }) db.work_requests;
})

-- closeAgentWorkRequestsForRunTx
unfoldable pub close_agent_work_requests : Env → ℕ → ℕ → Tx (Unit {0})
close_agent_work_requests env project_id run_id = modify (λ db. record db {
  work_requests =
      update (λ r. of_request project_id run_id r && is_null r.closed_at)
        (λ r. record r {
          sealed_at = some (coalesce r.sealed_at env.now);
          closed_at = some env.now;
          updated_at = env.now;
        })
        db.work_requests;
})

pub record Terminal : Type 0 where
  pub outcome : DelegationOutcome
  pub event_type : EventType
  pub fallback : Text

-- delegationTerminalOutcome
unfoldable pub delegation_terminal_outcome : RunStatus → Tx Terminal
delegation_terminal_outcome RunStatus.completed = pure (record {
  outcome = DelegationOutcome.succeeded;
  event_type = EventType.delegation_completed;
  fallback = codes "Delegated task completed successfully.";
})
delegation_terminal_outcome RunStatus.failed = pure (record {
  outcome = DelegationOutcome.failed;
  event_type = EventType.delegation_failed;
  fallback = codes "Delegated task failed.";
})
delegation_terminal_outcome RunStatus.cancelled = pure (record {
  outcome = DelegationOutcome.cancelled;
  event_type = EventType.delegation_cancelled;
  fallback = codes "Delegated task was cancelled.";
})
delegation_terminal_outcome _ = fail invalid_argument

abbrev pub max_delegation_result_characters : ℕ
max_delegation_result_characters = 4096

abbrev pub or_no_summary : Text → Text
or_no_summary [] = codes "Delegated task produced no summary."
or_no_summary (c ∷ s) = c ∷ s

-- boundDelegationResult
unfoldable pub bound_delegation_result : Text → Text
bound_delegation_result value =
    or_no_summary (take_runes max_delegation_result_characters (trim_space value))

abbrev pub message_of : Payload → Text
message_of (Payload.members message kind reason direction) = coalesce message []
message_of _ = []

abbrev pub reason_of : Payload → Text
reason_of (Payload.members message kind reason direction) = coalesce reason []
reason_of _ = []

-- COALESCE(NULLIF(BTRIM(payload->>'kind'), ''), 'message') = 'message'
abbrev pub kind_is_message : Option Text → Bool
kind_is_message none = true
kind_is_message (some k) = text_eq (btrim k) [] || text_eq (btrim k) (codes "message")

abbrev pub is_message : Payload → Bool
is_message (Payload.members message kind reason direction) = kind_is_message kind
is_message _ = true

abbrev pub is_result_event : RunStatus → EventType → Payload → Bool
is_result_event RunStatus.failed EventType.run_failed payload = true
is_result_event RunStatus.failed _ payload = false
is_result_event _ EventType.agent_message payload = is_message payload
is_result_event _ _ payload = false

abbrev pub summary_of : EventType → Payload → Text
summary_of EventType.agent_message payload = message_of payload
summary_of EventType.run_failed payload = reason_of payload
summary_of _ payload = []

abbrev pub of_run : Run → Event → Bool
of_run run e = e.project_id == run.project_id && is_value e.run_id run.id

-- ORDER BY sequence DESC, in which NULL comes first.
abbrev pub is_later : Option ℕ → Option ℕ → Bool
is_later none b = false
is_later (some a) none = true
is_later (some a) (some b) = ltb a b

newest : Option Event → List Event → Option Event
newest best [] = best
newest none (e ∷ es) = newest (some e) es
newest (some b) (e ∷ es) = newest (some (if is_later b.sequence e.sequence then e else b)) es

-- The text and the event that a summary is taken from.
abbrev pub evidence_text : Option Event → Text
evidence_text none = []
evidence_text (some e) = summary_of e.type e.payload

abbrev pub evidence_id : Option Event → Option ℕ
evidence_id none = none
evidence_id (some e) = if is_blank (summary_of e.type e.payload) then none else some e.id

abbrev pub failure_text : RunStatus → Option Text → Text
failure_text RunStatus.failed (some reason) = reason
failure_text _ _ = []

abbrev pub first_text : Text → Text → Text → Text
first_text a b c = if is_blank a then (if is_blank b then c else b) else a

-- delegatedResultEvidence: a summary, and the event that holds it.
unfoldable pub delegated_result_evidence : Run → Text → Tx (Text × Option ℕ)
unfolding newest
delegated_result_evidence child fallback = do
  event ← gets (λ db.
      newest none
        (select (λ e. of_run child e && is_result_event child.status e.type e.payload) db.events))
  pure (
    bound_delegation_result (
        first_text (evidence_text event) (failure_text child.status child.failure_reason) fallback),
    evidence_id event,
  )

abbrev pub accepts_workspace : EventType → Payload → Bool
accepts_workspace EventType.delegation_workspace_accepted payload = true
accepts_workspace EventType.workspace_transfer_completed
      (Payload.members message kind reason (some direction)) =
    text_eq direction (codes "from_runner") || text_eq direction (codes "git_publish")
accepts_workspace _ _ = false

-- delegatedWorkspaceAccepted
unfoldable pub delegated_workspace_accepted : Run → Tx Bool
delegated_workspace_accepted child =
    gets (λ db. any (λ e. of_run child e && accepts_workspace e.type e.payload) db.events)
