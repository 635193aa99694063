-- ===== src/Transfers/Bounds.antt =====
-- The bytes that each end keeps of a transfer.
use mathlib.Core.Path.{subst}
use agent_board.Prelude.{
  ℕ, ◌+◌, ◌≤◌, ◌≡◌, refl, sym, ap, ◌∙◌, Bool, true, Bool-cases, Option, none, some, List, [], ◌∷◌,
  ◌++◌, inl, inr, if-cases, length, arith, and-right,
}
use agent_board.Prelude.Int.{ℤ, pos, negsuc, pos_part}
use agent_board.Prelude.Lists.{length-append}
use agent_board.Transfers.Protocol.{
  Bytes, Encoding, TransferBegin, TransferChunk, max_transfer_bytes, in_transfer_size,
  validate_transfer_begin, exceeds, append_decoded, append_transfer_chunk,
}
use agent_board.Transfers.Send.{Body, begin, chunk, end_of, failed, malformed}
use agent_board.Transfers.Connection.{
  TransferResult, failure, IncomingTransferState, Slot, empty_slot, complete_for, complete_transfer,
  other_transfer, stored, on_chunk, on_end, handle_body, is_waiter, receive_done, receive_transfer,
  cancel_receive,
}
use agent_board.Transfers.Connection.History.{
  TransferEvent, message, receives, cancels, step, run_events,
}

-- What is in the buffer of a transfer is within its declared size, and that within the limit.
pub record Within (buffer : Bytes) (expected : ℕ) : Type 0 where
  pub in_size : length buffer ≤ expected
  pub in_limit : expected ≤ max_transfer_bytes

append_decoded-Within :
    (buffer : Bytes) (expected : ℕ) (o : Option Bytes) (b : Bytes)
    → Within buffer expected
    → append_decoded buffer expected o ≡ some b
    → Within b expected
append_decoded-Within buffer expected none b w e = absurd (ground (arith, e))
append_decoded-Within buffer expected (some bytes) b w e =
    elim (Bool-cases (exceeds (length bytes) (length buffer + length bytes) expected)) [
      | inl x ↦ absurd (ground (arith, e, x))
      | inr x ↦
          let same : buffer ++ bytes ≡ b = ground (arith, e, x) in
          let n : length b ≡ length buffer + length bytes =
            sym (ap length same) ∙ length-append buffer bytes in
          record { in_size = ground (arith, n, x, w.in_size); in_limit = w.in_limit }
    ]

pub append_transfer_chunk-Within :
    (e : Encoding) (buffer : Bytes) (expected : ℕ) (c : TransferChunk) (b : Bytes)
    → Within buffer expected
    → append_transfer_chunk e buffer expected c ≡ some b
    → Within b expected
unfolding append_transfer_chunk
append_transfer_chunk-Within e buffer expected c b w h =
    append_decoded-Within buffer expected (e.decode_string c.chunk_data) b w h

in_transfer_size-Within : (n : ℤ) → in_transfer_size n ≡ true → Within [] (pos_part n)
in_transfer_size-Within (pos n) h = record { in_size = omega arith; in_limit = ground (arith, h) }
in_transfer_size-Within (negsuc n) h = record { in_size = omega arith; in_limit = omega arith }

pub validate_transfer_begin-Within :
    (b : TransferBegin) → validate_transfer_begin b ≡ true → Within [] (pos_part b.total_bytes)
unfolding validate_transfer_begin
validate_transfer_begin-Within b h =
    in_transfer_size-Within b.total_bytes (and-right _ (in_transfer_size b.total_bytes) h)

abbrev IsBounded : Option IncomingTransferState → Type 0
IsBounded none = Unit
IsBounded (some t) = Within t.buffer t.expected

complete_for-none :
    (w : Option ℕ) (r : TransferResult) (s : Slot) → (complete_for w r s).transfer ≡ none
complete_for-none none r s = refl
complete_for-none (some w) r s = refl

complete-IsBounded : (r : TransferResult) (s : Slot) → IsBounded (complete_transfer r s).1.transfer
unfolding complete_transfer
complete-IsBounded r s = rw (complete_for-none s.waiter r s) tt

stored-IsBounded :
    (o : Option Bytes) (t : IncomingTransferState) (s : Slot)
    → ((b : Bytes) → o ≡ some b → Within b t.expected)
    → IsBounded (stored o t s).1.transfer
unfolding complete_transfer
stored-IsBounded none t s h = complete-IsBounded failure s
stored-IsBounded (some b) t s h = h b refl

module _ (e : Encoding) where
  chunk-IsBounded :
      (c : TransferChunk) (o : Option IncomingTransferState) (s : Slot)
      → o ≡ s.transfer
      → IsBounded o
      → IsBounded (on_chunk e c o s).1.transfer
  unfolding complete_transfer
  chunk-IsBounded c none s q h = subst IsBounded q tt
  chunk-IsBounded c (some t) s q h =
      if-cases (λ (x : Bool × Slot). IsBounded x.1.transfer) (other_transfer c.transfer_id t) _ _
        (λ _. subst IsBounded q h)
        (λ _.
          stored-IsBounded (append_transfer_chunk e t.buffer t.expected c) t s
            (λ b k. append_transfer_chunk-Within e t.buffer t.expected c b h k))

  end-IsBounded :
      (id : ℕ) (o : Option IncomingTransferState) (s : Slot)
      → o ≡ s.transfer
      → IsBounded o
      → IsBounded (on_end e id o s).1.transfer
  unfolding complete_transfer
  end-IsBounded id none s q h = subst IsBounded q tt
  end-IsBounded id (some t) s q h =
      if-cases (λ (x : Bool × Slot). IsBounded x.1.transfer) (other_transfer id t) _ _
        (λ _. subst IsBounded q h) (λ _. complete-IsBounded _ s)

  body-IsBounded :
      (b : Body) (s : Slot) → IsBounded s.transfer → IsBounded (handle_body e b s).1.transfer
  unfolding handle_body
  body-IsBounded (begin b) s h =
      if-cases (λ (x : Bool × Slot). IsBounded x.1.transfer) (validate_transfer_begin b) _ _
        (λ v. validate_transfer_begin-Within b v) (λ _. h)
  body-IsBounded (chunk c) s h = chunk-IsBounded c s.transfer s refl h
  body-IsBounded (end_of id) s h = end-IsBounded id s.transfer s refl h
  body-IsBounded (failed id) s h = complete-IsBounded failure s
  body-IsBounded malformed s h = h

  receive-IsBounded :
      (w : ℕ) (o : Option TransferResult) (s : Slot)
      → IsBounded s.transfer
      → IsBounded (receive_done w o s).1.transfer
  receive-IsBounded w none s h = h
  receive-IsBounded w (some r) s h = h

  step-IsBounded :
      (s : Slot) (v : TransferEvent) → IsBounded s.transfer → IsBounded (step e s v).transfer
  unfolding step receive_transfer cancel_receive
  step-IsBounded s (message b) h = body-IsBounded b s h
  step-IsBounded s (receives w) h = receive-IsBounded w s.done s h
  step-IsBounded s (cancels w) h =
      if-cases (λ (x : Slot). IsBounded x.transfer) (is_waiter w s.waiter) _ _ (λ _. h) (λ _. h)

  run-IsBounded :
      (s : Slot) (vs : List TransferEvent)
      → IsBounded s.transfer
      → IsBounded (run_events e s vs).transfer
  unfolding run_events
  run-IsBounded s [] h = h
  run-IsBounded s (v ∷ vs) h = run-IsBounded (step e s v) vs (step-IsBounded s v h)

-- However a session's transfers begin, go on and end on the server, and whoever receives, the bytes
-- that are kept of a transfer are at most as many as its begin message declares, and at most
-- 536870912.
pub run_events-Within :
    (e : Encoding) (events : List TransferEvent) (t : IncomingTransferState)
    → (run_events e empty_slot events).transfer ≡ some t
    → Within t.buffer t.expected
run_events-Within e events t h = subst IsBounded h (run-IsBounded e empty_slot events tt)
