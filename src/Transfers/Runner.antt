-- ===== src/Transfers/Runner.antt =====
-- apps/agent-runner/internal/server/transfer.go: the runner's end. The maps that transferState keeps
-- by session are one function, from a session to its entries.
pub mod Backed
use agent_board.Prelude.{
  is_null, ℕ, ◌+◌, Bool, true, false, not, ◌&&◌, ◌||◌, Option, none, some, List, [], ◌∷◌, ◌++◌,
  ◌==◌, if◌then◌else◌,
}
use agent_board.Prelude.Int.{pos_part}
use agent_board.Prelude.Text.{Text}
use agent_board.Transfers.Protocol.{
  Bytes, Encoding, TransferBegin, TransferChunk, TransferDirection, validate_transfer_begin,
  append_transfer_chunk, validate_transfer_payload,
}

pub record IncomingTransfer : Type 0 where
  pub transfer_id : ℕ
  pub direction : TransferDirection
  pub expected : ℕ
  pub checksum : Text
  pub buffer : Bytes

-- workspace.CheckoutState, and remoteTransferWorkspace with its checkout.
pub record CheckoutState : Type 0 where
  pub branch : ℕ
  pub start_revision : ℕ

pub record RemoteWorkspace : Type 0 where
  pub clone_url : ℕ
  pub checkout : CheckoutState

-- What a session does to the world: an error that it reports, a failed transfer that it reports, a
-- payload that it offers under an id and then sends, its workspace removed on an acknowledgement.
pub data Effect : Type 0 where
  reported : Effect
  reported_failed : (transfer_id : ℕ) → Effect
  offered : (transfer_id : ℕ) → Bytes → Effect
  removed : (transfer_id : ℕ) → Effect

-- A session's entries in incoming, ready, remote, begun, failed and awaitingApplied (0 where there
-- is none), and its effects, the latest first.
pub record Session : Type 0 where
  pub incoming : Option IncomingTransfer
  pub ready : Option CheckoutState
  pub remote : Option RemoteWorkspace
  pub begun : Bool
  pub failed : Bool
  pub awaiting_applied : ℕ
  pub effects : List Effect

-- newTransferState, of a session.
abbrev pub new_session : Session
new_session = record {
  incoming = none;
  ready = none;
  remote = none;
  begun = false;
  failed = false;
  awaiting_applied = 0;
  effects = [];
}

-- What Git and the file system answer for a session: the path of its workspace, the two ways to
-- make it, the payloads that publishing and synchronising give, and whether its removal succeeds.
pub record RunnerWorkspace : Type 0 where
  pub has_path : Bool
  pub materialize : Bytes → Option CheckoutState
  pub prepare : Bytes → Option RemoteWorkspace
  pub publish : RemoteWorkspace → Option Bytes
  pub snapshot : CheckoutState → Option Bytes
  pub cleanup : RemoteWorkspace → Bool
  pub remove_all : Bool
  -- sessionID + "-publish" and sessionID + "-sync".
  pub publish_id : ℕ
  pub sync_id : ℕ

abbrev pub with_effect : Effect → Session → Session
with_effect e s = record s { effects = e ∷ s.effects }

-- transferState's marks.
unfoldable pub mark_ready : CheckoutState → Session → Session
mark_ready state s = record s { ready = some state; failed = false }

unfoldable pub mark_remote_ready : RemoteWorkspace → Session → Session
mark_remote_ready r s = record s { ready = some r.checkout; remote = some r; failed = false }

unfoldable pub mark_failed : Session → Session
mark_failed s = record s { failed = true; ready = none; remote = none }

unfoldable pub clear_ready : Session → Session
clear_ready s = record s { ready = none; remote = none; begun = false; failed = false }

unfoldable pub await_applied : ℕ → Session → Session
await_applied t s = record s { awaiting_applied = t }

unfoldable pub matches_applied : ℕ → Session → Bool
matches_applied t s = s.awaiting_applied == t && not (t == 0)

unfoldable pub clear_applied : ℕ → Session → Session
clear_applied t s = if s.awaiting_applied == t then record s { awaiting_applied = 0 } else s

abbrev pub replaces_workspace : TransferDirection → Bool
replaces_workspace TransferDirection.to_runner = true
replaces_workspace TransferDirection.git_prepare = true
replaces_workspace _ = false

-- transferState.begin, where the begin message is valid.
unfoldable pub start_transfer : TransferBegin → Session → Session
start_transfer b s =
    let incoming : IncomingTransfer = record {
      transfer_id = b.transfer_id;
      direction = b.direction;
      expected = pos_part b.total_bytes;
      checksum = b.checksum;
      buffer = [];
    } in
    if replaces_workspace b.direction
    then record s {
      begun = true;
      failed = false;
      ready = none;
      remote = none;
      incoming = some incoming;
    }
    else record s { begun = true; failed = false; incoming = some incoming }

-- handleTransferBegin
unfoldable pub handle_transfer_begin : TransferBegin → Session → Session
unfolding start_transfer
handle_transfer_begin b s =
    if validate_transfer_begin b then start_transfer b s else with_effect reported s

abbrev pub other_transfer : ℕ → IncomingTransfer → Bool
other_transfer id t = not (t.transfer_id == 0) && not (id == t.transfer_id)

abbrev pub chunk_stored : Option Bytes → IncomingTransfer → Session → Session
chunk_stored none t s = with_effect reported s
chunk_stored (some buffer) t s = record s { incoming = some (record t { buffer = buffer }) }

-- materializeLocalWorkspace
abbrev pub materialized : Option CheckoutState → Session → Session
unfolding mark_failed mark_ready
materialized none s = with_effect reported (mark_failed s)
materialized (some state) s = mark_ready state s

unfoldable pub materialize_local_workspace : RunnerWorkspace → Bytes → Session → Session
unfolding mark_failed mark_ready
materialize_local_workspace w payload s =
    if w.has_path
    then materialized (w.materialize payload) s
    else with_effect reported (mark_failed s)

-- prepareRemoteWorkspace
abbrev pub prepared : Option RemoteWorkspace → Session → Session
unfolding mark_failed mark_remote_ready
prepared none s = with_effect reported (mark_failed s)
prepared (some r) s = mark_remote_ready r s

unfoldable pub prepare_remote_workspace : RunnerWorkspace → Bytes → Session → Session
unfolding mark_failed mark_remote_ready
prepare_remote_workspace w payload s =
    if w.has_path then prepared (w.prepare payload) s else with_effect reported (mark_failed s)

-- awaitApplied and sendTransfer of a payload, or the failure that is reported. A sendTransfer that
-- fails only reports it besides.
abbrev pub offer : ℕ → Option Bytes → Session → Session
unfolding await_applied
offer t none s = with_effect (reported_failed t) s
offer t (some payload) s = with_effect (offered t payload) (await_applied t s)

abbrev pub publish_from : RunnerWorkspace → ℕ → Option RemoteWorkspace → Session → Session
unfolding await_applied
publish_from w t none s = with_effect (reported_failed t) s
publish_from w t (some r) s = offer t (w.publish r) s

-- publishRemoteWorkspace
unfoldable pub publish_remote_workspace : RunnerWorkspace → ℕ → Session → Session
unfolding await_applied
publish_remote_workspace w transfer_id s =
    publish_from w (if transfer_id == 0 then w.publish_id else transfer_id) s.remote s

abbrev pub sync_from : RunnerWorkspace → ℕ → Option CheckoutState → Session → Session
unfolding await_applied
sync_from w t none s = with_effect (reported_failed t) s
sync_from w t (some state) s = offer t (w.snapshot state) s

-- syncWorkspaceBack
unfoldable pub sync_workspace_back : RunnerWorkspace → ℕ → Session → Session
unfolding await_applied
sync_workspace_back w transfer_id s =
    let t : ℕ = if transfer_id == 0 then w.sync_id else transfer_id in
    if w.has_path then sync_from w t s.ready s else with_effect (reported_failed t) s

-- The switch of handleTransferEnd.
unfoldable pub finish_transfer : RunnerWorkspace → ℕ → TransferDirection → Bytes → Session → Session
unfolding sync_workspace_back publish_remote_workspace prepare_remote_workspace
    materialize_local_workspace
finish_transfer w id TransferDirection.from_runner payload s = sync_workspace_back w id s
finish_transfer w id TransferDirection.git_publish payload s = publish_remote_workspace w id s
finish_transfer w id TransferDirection.git_prepare payload s = prepare_remote_workspace w payload s
finish_transfer w id TransferDirection.to_runner payload s = materialize_local_workspace w payload s
finish_transfer w id TransferDirection.other_direction payload s = s

module _ (e : Encoding) where
  abbrev pub chunk_of : TransferChunk → Option IncomingTransfer → Session → Session
  chunk_of c none s = with_effect reported s
  chunk_of c (some t) s =
      if other_transfer c.transfer_id t
      then s
      else chunk_stored (append_transfer_chunk e t.buffer t.expected c) t s

  -- handleTransferChunk, with transferState.chunk.
  unfoldable pub handle_transfer_chunk : TransferChunk → Session → Session
  handle_transfer_chunk c s = chunk_of c s.incoming s

  abbrev pub end_of_transfer : RunnerWorkspace → ℕ → Option IncomingTransfer → Session → Session
  unfolding mark_failed finish_transfer
  end_of_transfer w id none s = with_effect reported (mark_failed s)
  end_of_transfer w id (some t) s =
      if other_transfer id t
      then s
      else (if validate_transfer_payload e t.buffer t.expected t.checksum
          then finish_transfer w id t.direction t.buffer (record s { incoming = none })
          else with_effect reported (mark_failed (record s { incoming = none })))

  -- handleTransferEnd, with transferState.end.
  unfoldable pub handle_transfer_end : RunnerWorkspace → ℕ → Session → Session
  unfolding mark_failed finish_transfer
  handle_transfer_end w id s = end_of_transfer w id s.incoming s

abbrev pub removed_by : RunnerWorkspace → Option RemoteWorkspace → Bool
removed_by w none = w.has_path && w.remove_all
removed_by w (some r) = w.cleanup r

-- handleTransferApplied
unfoldable pub handle_transfer_applied : RunnerWorkspace → ℕ → Session → Session
unfolding matches_applied clear_applied clear_ready
handle_transfer_applied w id s =
    if not (matches_applied id s)
    then with_effect reported s
    else (if removed_by w s.remote
        then clear_ready (clear_applied id (with_effect (removed id) s))
        else with_effect reported s)

-- A look of waitReady at the session: its answer, or none where it goes on waiting.
unfoldable pub wait_ready_poll : Session → Option Bool
wait_ready_poll s =
    if not (is_null s.ready)
    then some true
    else (if s.failed
        then some false
        else (if not s.begun && is_null s.incoming then some true else none))
