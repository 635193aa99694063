-- ===== src/Transfers/Connection/RoundTrip.antt =====
-- What one end sends, among the messages of other sessions, as the other end receives it.
use agent_board.Prelude.{ℕ, ◌≤◌, Bool, true, false, if◌then◌else◌, length}
use agent_board.Transfers.Protocol.{Bytes, Encoding, max_transfer_bytes}
use agent_board.Transfers.Connection.{IncomingTransferState, Slot}

-- The last message of a session's.
abbrev go_on : Bool × Slot → Bool × Slot
go_on r = if r.0 then (true, r.1) else (false, r.1)

module _ (e : Encoding) (t : ℕ) (whole : Bytes) (small : length whole ≤ max_transfer_bytes) where
  -- A transfer of the payload, of which some bytes have come.
  abbrev arriving : Bytes → IncomingTransferState
  arriving buffer = record {
    transfer_id = t;
    expected = length whole;
    checksum = e.transfer_checksum whole;
    buffer = buffer;
  }
