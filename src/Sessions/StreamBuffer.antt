-- ===== src/Sessions/StreamBuffer.antt =====
-- apps/agent-runner/internal/session/stream_buffer.go: the bounded buffer between a process and the
-- readers of its output. Lengths are Go's `int`s, which no list of bytes in memory passes;
-- `dropped` is an int64 that wraps, kept as its residue modulo 2 ^ 64.
pub mod History
use agent_board.Prelude.{
  ℕ, ◌+◌, ◌-◌, ◌%◌, Bool, true, false, ◌&&◌, Option, none, some, List, [], ◌++◌, ltb, leb, length,
  ◌==◌, if◌then◌else◌,
}
use agent_board.Prelude.Lists.{take, drop}

abbrev pub two64 : ℕ
two64 = 18446744073709551616

abbrev pub int64_max : ℕ
int64_max = 9223372036854775807

-- streamBuffer
pub record StreamBuffer : Type 0 where
  pub buffer : List ℕ
  pub limit : ℕ
  pub dropped : ℕ
  pub closed : Bool
  pub err : Option ℕ

-- newStreamBufferWithLimit
unfoldable pub new_stream_buffer_with_limit : ℕ → StreamBuffer
new_stream_buffer_with_limit limit = record {
  buffer = [];
  limit = if ltb limit 1 then 1 else limit;
  dropped = 0;
  closed = false;
  err = none;
}

-- A write is accepted whole, or the pipe is closed.
pub data Written : Type 0 where
  accepted : ℕ → Written
  err_closed_pipe : Written

-- The chunk alone fills the buffer: its end replaces everything.
abbrev pub replaced : List ℕ → StreamBuffer → StreamBuffer
replaced p b = record b {
  dropped = (b.dropped + (length b.buffer + length p - b.limit)) % two64;
  buffer = drop (length p - b.limit) p;
}

-- The oldest bytes make room for the chunk. Where nothing overflows, nothing is dropped.
abbrev pub appended : List ℕ → StreamBuffer → StreamBuffer
appended p b =
    let overflow : ℕ = length b.buffer + length p - b.limit in
    record b {
      dropped = if ltb 0 overflow then (b.dropped + overflow) % two64 else b.dropped;
      buffer = drop overflow b.buffer ++ p;
    }

-- Write
unfoldable pub write : List ℕ → StreamBuffer → Written × StreamBuffer
write p b =
    if b.closed
    then (err_closed_pipe, b)
    else (accepted (length p), if leb b.limit (length p) then replaced p b else appended p b)

-- What a read returns; `waits` is a reader that blocks on the condition variable.
pub data ReadResult : Type 0 where
  waits : ReadResult
  bytes : List ℕ → ReadResult
  truncated : (dropped : ℕ) (err : Option ℕ) → ReadResult
  failed : ℕ → ReadResult
  eof : ReadResult

abbrev pub ended : Option ℕ → ReadResult
ended none = eof
ended (some e) = failed e

abbrev pub read_closed : StreamBuffer → ReadResult
read_closed b =
    if ltb 0 b.dropped && leb b.dropped int64_max then truncated b.dropped b.err else ended b.err

-- Read into a slice of `n` bytes.
unfoldable pub read : ℕ → StreamBuffer → ReadResult × StreamBuffer
read n b =
    if n == 0
    then (bytes [], b)
    else if ltb 0 (length b.buffer)
    then (bytes (take n b.buffer), record b { buffer = drop n b.buffer })
    else if b.closed
    then (read_closed b, b)
    else (waits, b)

-- CloseWithError
unfoldable pub close_with_error : Option ℕ → StreamBuffer → StreamBuffer
close_with_error e b = if b.closed then b else record b { closed = true; err = e }
