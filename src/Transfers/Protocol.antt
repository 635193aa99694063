-- ===== src/Transfers/Protocol.antt =====
-- packages/runnerprotocol/transfer.go: the messages of a transfer, and the checks of both ends.
-- A payload is a list of bytes. The text encoding of a chunk and the checksum are those of Go's
-- library: `Encoding` is what the code relies on.
use agent_board.Prelude.{
  ℕ, ◌+◌, ◌≡◌, Bool, false, not, ◌&&◌, ◌||◌, Option, none, some, List, [], ◌++◌, ◌==◌, ltb,
  if◌then◌else◌, length,
}
use agent_board.Prelude.Int.{ℤ, pos, negsuc}
use agent_board.Prelude.Text.{Text, text_eq}

abbrev pub Bytes : Type 0
Bytes = List ℕ

-- base64.StdEncoding and the hexadecimal SHA-256.
pub record Encoding : Type 0 where
  pub encode_to_string : Bytes → Text
  pub decode_string : Text → Option Bytes
  pub transfer_checksum : Bytes → Text
  pub decode-encode : (b : Bytes) → decode_string (encode_to_string b) ≡ some b

-- TransferChunkSize, 64 << 10.
abbrev pub transfer_chunk_size : ℕ
transfer_chunk_size = 65536

-- MaxTransferBytes, 512 << 20.
abbrev pub max_transfer_bytes : ℕ
max_transfer_bytes = 536870912

pub data TransferDirection : Type 0 where
  to_runner from_runner git_prepare git_publish other_direction : TransferDirection

-- TransferBegin; an id is 0 where it is blank.
pub record TransferBegin : Type 0 where
  pub transfer_id : ℕ
  pub direction : TransferDirection
  pub total_bytes : ℤ
  pub checksum : Text

pub record TransferChunk : Type 0 where
  pub transfer_id : ℕ
  pub chunk_data : Text

-- ValidateTransferBegin
abbrev pub in_transfer_size : ℤ → Bool
in_transfer_size (pos n) = not (ltb max_transfer_bytes n)
in_transfer_size (negsuc n) = false

unfoldable pub validate_transfer_begin : TransferBegin → Bool
validate_transfer_begin b = not (b.transfer_id == 0) && in_transfer_size b.total_bytes

-- The size that AppendTransferChunk refuses.
abbrev pub exceeds : (length_data total expected : ℕ) → Bool
exceeds length_data total expected =
    (expected == 0 && ltb 0 length_data)
    || ltb max_transfer_bytes total
    || (ltb 0 expected && ltb expected total)

abbrev pub append_decoded : Bytes → ℕ → Option Bytes → Option Bytes
append_decoded buffer expected none = none
append_decoded buffer expected (some bytes) =
    if exceeds (length bytes) (length buffer + length bytes) expected
    then none
    else some (buffer ++ bytes)

module _ (e : Encoding) where
  -- AppendTransferChunk; `none` is either error.
  unfoldable pub append_transfer_chunk : Bytes → ℕ → TransferChunk → Option Bytes
  append_transfer_chunk buffer expected chunk =
      append_decoded buffer expected (e.decode_string chunk.chunk_data)

  -- ValidateTransferPayload
  unfoldable pub validate_transfer_payload : Bytes → ℕ → Text → Bool
  validate_transfer_payload payload expected checksum =
      not (not (text_eq checksum []) && not (text_eq (e.transfer_checksum payload) checksum))
      && not (ltb 0 expected && not (length payload == expected))
