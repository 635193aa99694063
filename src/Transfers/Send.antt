-- ===== src/Transfers/Send.antt =====
-- SendTransfer of the server and sendTransfer of the runner, which write the same messages.
pub mod Whole
use agent_board.Prelude.{
  ℕ, zero, suc, ◌+◌, Bool, true, false, List, [], ◌∷◌, ◌==◌, ◌||◌, if◌then◌else◌, length,
}
use agent_board.Prelude.Int.{pos}
use agent_board.Prelude.Lists.{take, drop}
use agent_board.Transfers.Protocol.{
  Bytes, Encoding, TransferBegin, TransferChunk, TransferDirection, transfer_chunk_size,
}

-- The payloads of the messages about transfers, with one that does not decode.
pub data Body : Type 0 where
  begin : TransferBegin → Body
  chunk : TransferChunk → Body
  end_of : (transfer_id : ℕ) → Body
  failed : (transfer_id : ℕ) → Body
  malformed : Body

pub record Message : Type 0 where
  pub session_id : ℕ
  pub body : Body

-- What the link does: whether the write of a number fails, and whether the context is done after
-- it.
pub record Link : Type 0 where
  pub fails : ℕ → Bool
  pub is_done : ℕ → Bool

-- The loop over the chunks, from the write of a number on: the messages that are written, and
-- whether all are. The fuel is the length of what is left.
unfoldable pub send_chunks :
    Encoding → Link → (session_id transfer_id fuel written : ℕ) → Bytes → List Message × Bool
send_chunks e link s t fuel written [] =
    if link.fails written
    then ([], false)
    else (record { session_id = s; body = end_of t } ∷ [], true)
send_chunks e link s t zero written (x ∷ payload) = ([], false)
send_chunks e link s t (suc fuel) written (x ∷ payload) =
    let bytes : Bytes = take transfer_chunk_size (x ∷ payload) in
    let message : Message = record {
      session_id = s;
      body = chunk (record { transfer_id = t; chunk_data = e.encode_to_string bytes });
    } in
    let rest = send_chunks e link s t fuel (written + 1) (drop transfer_chunk_size (x ∷ payload)) in
    if link.fails written
    then ([], false)
    else (if link.is_done written then (message ∷ [], false) else (message ∷ rest.0, rest.1))

unfoldable pub send_begin :
    Encoding → Link → (session_id transfer_id : ℕ) → TransferDirection → Bytes → List Message × Bool
unfolding send_chunks
send_begin e link s t direction payload =
    let rest = send_chunks e link s t (length payload) 1 payload in
    let message : Message = record {
      session_id = s;
      body = begin (record {
        transfer_id = t;
        direction = direction;
        total_bytes = pos (length payload);
        checksum = e.transfer_checksum payload;
      });
    } in
    if link.fails 0 then ([], false) else (message ∷ rest.0, rest.1)

-- SendTransfer, which wants both ids.
unfoldable pub send_transfer :
    Encoding → Link → (session_id transfer_id : ℕ) → TransferDirection → Bytes → List Message × Bool
unfolding send_begin
send_transfer e link s t direction payload =
    if s == 0 || t == 0 then ([], false) else send_begin e link s t direction payload
