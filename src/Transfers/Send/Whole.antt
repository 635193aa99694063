-- ===== src/Transfers/Send/Whole.antt =====
-- SendTransfer and sendTransfer on a link that holds: the messages that are written.
use agent_board.Prelude.{
  ℕ, zero, suc, ◌+◌, ◌≤◌, ◌<◌, ◌≡◌, refl, ap, true, false, List, [], ◌∷◌, ◌++◌, map, ◌==◌, ◌||◌,
  length, arith,
}
use agent_board.Prelude.Int.{pos}
use agent_board.Prelude.Lists.{take, drop, length-take, length-drop, take-drop}
use agent_board.Transfers.Protocol.{Bytes, Encoding, TransferDirection, transfer_chunk_size}
use agent_board.Transfers.Send.{
  begin, chunk, end_of, Message, Link, send_chunks, send_begin, send_transfer,
}

-- The pieces of a payload that its chunks hold: together they are the payload, and each has a byte
-- or more, and at most 65536.
pub data IsCut : List Bytes → Bytes → Type 0 where
  nothing : IsCut [] []
  piece :
      (bytes : Bytes) (pieces : List Bytes) (rest payload : Bytes)
      → 0 < length bytes
      → length bytes ≤ transfer_chunk_size
      → bytes ++ rest ≡ payload
      → IsCut pieces rest
      → IsCut (bytes ∷ pieces) payload

module _ (e : Encoding) (session_id transfer_id : ℕ) where
  abbrev pub chunk_of : Bytes → Message
  chunk_of bytes = record {
    session_id = session_id;
    body = chunk (record { transfer_id = transfer_id; chunk_data = e.encode_to_string bytes });
  }

  abbrev pub end_message : Message
  end_message = record { session_id = session_id; body = end_of transfer_id }

  abbrev pub begin_message : TransferDirection → Bytes → Message
  begin_message direction payload = record {
    session_id = session_id;
    body = begin (record {
      transfer_id = transfer_id;
      direction = direction;
      total_bytes = pos (length payload);
      checksum = e.transfer_checksum payload;
    });
  }

  module _ (link : Link) (holds : (n : ℕ) → link.fails n ≡ false)
      (goes_on : (n : ℕ) → link.is_done n ≡ false) where
    send_chunks-whole :
        (fuel written : ℕ) (payload : Bytes)
        → length payload ≤ fuel
        → (pieces : List Bytes) × IsCut pieces payload
          × (send_chunks e link session_id transfer_id fuel written payload
              ≡ (map chunk_of pieces ++ end_message ∷ [], true))
    unfolding send_chunks
    send_chunks-whole fuel written [] b = ([], nothing, rw (holds written) refl)
    send_chunks-whole zero written (x ∷ payload) b = absurd (omega (arith, b))
    send_chunks-whole (suc fuel) written (x ∷ payload) b =
        let bytes : Bytes = take transfer_chunk_size (x ∷ payload) in
        let rest : Bytes = drop transfer_chunk_size (x ∷ payload) in
        let (pieces, cut, sent) =
          send_chunks-whole fuel (written + 1) rest
            (omega (arith, b, length-drop transfer_chunk_size (x ∷ payload))) in
        let size = length-take transfer_chunk_size (x ∷ payload) in
        (
          bytes ∷ pieces,
          piece bytes pieces rest (x ∷ payload) (omega (arith, size)) (omega (arith, size))
              (take-drop transfer_chunk_size (x ∷ payload)) cut,
          rw (holds written, goes_on written) (ap (λ r. (chunk_of bytes ∷ r.0, r.1)) sent),
        )

-- On a link where no write fails and the context does not end, a transfer with both ids is sent to
-- its end, however long the payload: a begin message with its length and its checksum, the chunks
-- in order, which cut the payload into pieces of 1 to 65536 bytes, and an end message.
pub send_transfer-whole :
    (e : Encoding) (link : Link) (session_id transfer_id : ℕ) (direction : TransferDirection)
    (payload : Bytes)
    → (session_id == 0 || transfer_id == 0) ≡ false
    → ((n : ℕ) → link.fails n ≡ false)
    → ((n : ℕ) → link.is_done n ≡ false)
    → (pieces : List Bytes) × IsCut pieces payload
      × (send_transfer e link session_id transfer_id direction payload ≡ (
        begin_message e session_id transfer_id direction payload
              ∷ map (chunk_of e session_id transfer_id) pieces
            ++ end_message e session_id transfer_id ∷ [],
        true,
      ))
unfolding send_transfer send_begin
send_transfer-whole e link k t direction payload z f d =
    let (pieces, cut, sent) =
      send_chunks-whole e k t link f d (length payload) 1 payload (omega arith) in
    (pieces, cut, rw (z, f 0) (ap (λ r. (begin_message e k t direction payload ∷ r.0, r.1)) sent))
