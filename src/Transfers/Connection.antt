-- ===== src/Transfers/Connection.antt =====
-- apps/server/internal/runner/transfer.go: the server's end of a connection to a runner. The maps
-- that the connection keeps by session are one function, from a session to its entries.
pub mod ReadLoop
pub mod RoundTrip
pub mod History
use agent_board.Prelude.{
  ℕ, Bool, true, false, not, ◌&&◌, ◌||◌, Option, none, some, List, [], ◌∷◌, ◌++◌, ◌==◌,
  if◌then◌else◌,
}
use agent_board.Prelude.Int.{pos_part}
use agent_board.Prelude.Text.{Text}
use agent_board.Transfers.Protocol.{
  Bytes, Encoding, TransferBegin, TransferChunk, validate_transfer_begin, append_transfer_chunk,
  validate_transfer_payload,
}
use agent_board.Transfers.Send.{Body, begin, chunk, end_of, failed, malformed, Message}

-- transferResult: an error, or the transfer and its payload.
pub data TransferResult : Type 0 where
  failure : TransferResult
  received : (transfer_id : ℕ) (payload : Bytes) → TransferResult

-- incomingTransferState
pub record IncomingTransferState : Type 0 where
  pub transfer_id : ℕ
  pub expected : ℕ
  pub checksum : Text
  pub buffer : Bytes

-- A session's entries in transfers, transferWaiters and transferDone; and what was sent to the
-- channels of its waiters.
pub record Slot : Type 0 where
  pub transfer : Option IncomingTransferState
  pub waiter : Option ℕ
  pub done : Option TransferResult
  pub delivered : List (ℕ × TransferResult)

abbrev pub empty_slot : Slot
empty_slot = record { transfer = none; waiter = none; done = none; delivered = [] }

-- completeTransfer
abbrev pub complete_for : Option ℕ → TransferResult → Slot → Slot
complete_for none result s = record s { transfer = none; done = some result }
complete_for (some w) result s = record s {
  transfer = none;
  waiter = none;
  delivered = s.delivered ++ (w, result) ∷ [];
}

abbrev pub is_received : TransferResult → Bool
is_received failure = false
is_received (received transfer_id payload) = true

-- What a handler makes of a session's entries, after whether it returns no error.
unfoldable pub complete_transfer : TransferResult → Slot → Bool × Slot
complete_transfer result s = (is_received result, complete_for s.waiter result s)

-- The transfer of an id, where a message names another.
abbrev pub other_transfer : ℕ → IncomingTransferState → Bool
other_transfer id t = not (t.transfer_id == 0) && not (id == t.transfer_id)

abbrev pub stored : Option Bytes → IncomingTransferState → Slot → Bool × Slot
unfolding complete_transfer
stored none t s = complete_transfer failure s
stored (some buffer) t s = (true, record s { transfer = some (record t { buffer = buffer }) })

module _ (e : Encoding) where
  abbrev pub on_chunk : TransferChunk → Option IncomingTransferState → Slot → Bool × Slot
  unfolding complete_transfer
  on_chunk c none s = (true, s)
  on_chunk c (some t) s =
      if other_transfer c.transfer_id t
      then (true, s)
      else stored (append_transfer_chunk e t.buffer t.expected c) t s

  abbrev pub on_end : ℕ → Option IncomingTransferState → Slot → Bool × Slot
  unfolding complete_transfer
  on_end id none s = (true, s)
  on_end id (some t) s =
      if other_transfer id t
      then (true, s)
      else complete_transfer
          (if validate_transfer_payload e t.buffer t.expected t.checksum
            then received t.transfer_id t.buffer
            else failure)
          s

  abbrev pub on_begin : TransferBegin → Slot → Bool × Slot
  on_begin b s =
      if validate_transfer_begin b
      then (
        true,
        record s {
          transfer = some (record {
            transfer_id = b.transfer_id;
            expected = pos_part b.total_bytes;
            checksum = b.checksum;
            buffer = [];
          });
        },
      )
      else (false, s)

  -- handleTransferMessage, in the session's entries.
  unfoldable pub handle_body : Body → Slot → Bool × Slot
  unfolding complete_transfer
  handle_body (begin b) s = on_begin b s
  handle_body (chunk c) s = on_chunk c s.transfer s
  handle_body (end_of id) s = on_end id s.transfer s
  handle_body (failed id) s = complete_transfer failure s
  handle_body malformed s = (false, s)

  -- handleTransferMessage
  unfoldable pub handle_transfer_message : Message → (ℕ → Slot) → Bool × (ℕ → Slot)
  unfolding handle_body
  handle_transfer_message m slots = if m.session_id == 0 then (false, slots) else (
    (handle_body m.body (slots m.session_id)).0,
    λ k. if m.session_id == k then (handle_body m.body (slots k)).1 else slots k,
  )

  -- readLoop, over messages about transfers: an error ends the connection, and no further message
  -- is handled.
  unfoldable pub read_loop : List Message → (ℕ → Slot) → Bool × (ℕ → Slot)
  unfolding handle_transfer_message
  read_loop [] slots = (true, slots)
  read_loop (m ∷ ms) slots =
      let handled = handle_transfer_message m slots in
      let rest = read_loop ms handled.1 in if handled.0 then rest else (false, handled.1)

-- ReceiveTransfer until it waits, on a channel of a number: a result that was kept, or none.
abbrev pub receive_done : ℕ → Option TransferResult → Slot → Option TransferResult × Slot
receive_done w (some result) s = (some result, record s { done = none })
receive_done w none s = (none, record s { waiter = some w })

unfoldable pub receive_transfer : ℕ → Slot → Option TransferResult × Slot
receive_transfer w s = receive_done w s.done s

-- ReceiveTransfer, where its context ends.
abbrev pub is_waiter : ℕ → Option ℕ → Bool
is_waiter w none = false
is_waiter w (some v) = v == w

unfoldable pub cancel_receive : ℕ → Slot → Slot
cancel_receive w s = if is_waiter w s.waiter then record s { waiter = none } else s
