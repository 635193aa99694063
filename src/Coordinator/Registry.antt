-- ===== src/Coordinator/Registry.antt =====
-- coordinator.go: the active runs, and how a user's cancellation reaches the worker of a run.
-- A cancel function is the number of its context.
pub mod Reach
use agent_board.Prelude.{
  ℕ, ◌+◌, ◌%◌, Bool, true, false, not, ◌&&◌, ◌||◌, Option, none, some, List, [], ◌∷◌, ◌++◌, ◌==◌,
  if◌then◌else◌,
}
use agent_board.Prelude.Text.{Text, text_eq, is_blank}
use agent_board.Prelude.Rows.{first, any, delete}

-- activeRun, with its key in the map.
pub record ActiveRun : Type 0 where
  pub key : Text
  pub token : ℕ
  pub cancel : ℕ

-- Coordinator's activeSeq, a uint64 that wraps, and active; and the contexts whose cause is
-- ErrRunCancellation.
pub record Registry : Type 0 where
  pub active_seq : ℕ
  pub active : List ActiveRun
  pub cancelled : List ℕ

-- make(map[string]activeRun)
abbrev pub new_registry : Registry
new_registry = record { active_seq = 0; active = []; cancelled = [] }

-- activeRunKey
abbrev pub active_run_key : Text → Text → Text
active_run_key project_id run_id = project_id ++ 47 ∷ run_id

abbrev pub has_key : Text → ActiveRun → Bool
has_key key r = text_eq r.key key

-- c.active[key]
abbrev pub registration : Text → Registry → Option ActiveRun
registration key s = first (has_key key) s.active

-- registerActiveRun
unfoldable pub register_active_run : Text → Text → ℕ → Registry → ℕ × Registry
register_active_run project_id run_id cancel s =
    let token : ℕ = (s.active_seq + 1) % 18446744073709551616 in
    let key : Text = active_run_key project_id run_id in
    (
      token,
      record s {
        active_seq = token;
        active =
            record { key = key; token = token; cancel = cancel } ∷ delete (has_key key) s.active;
      },
    )

abbrev pub token_is : ℕ → Option ActiveRun → Bool
token_is token none = false
token_is token (some current) = current.token == token

-- unregisterActiveRun
unfoldable pub unregister_active_run : Text → Text → ℕ → Registry → Registry
unregister_active_run project_id run_id token s =
    if token == 0
    then s
    else let key : Text = active_run_key project_id run_id in
      if token_is token (registration key s)
      then record s { active = delete (has_key key) s.active }
      else s

abbrev pub cancel_registered : Option ActiveRun → Registry → Bool × Registry
cancel_registered none s = (false, s)
cancel_registered (some current) s = (true, record s { cancelled = current.cancel ∷ s.cancelled })

-- CancelRun. A context that is cancelled again keeps its cause.
unfoldable pub cancel_run : Text → Text → Registry → Bool × Registry
cancel_run project_id run_id s =
    if is_blank project_id || is_blank run_id
    then (false, s)
    else cancel_registered (registration (active_run_key project_id run_id) s) s
