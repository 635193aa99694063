-- ===== src/Sessions/StreamBuffer/History.antt =====
-- Every history of writes, reads and a close: the bound, the order of the bytes, and what is lost.
use agent_board.Prelude.{
  ℕ, ◌+◌, ◌-◌, ◌%◌, ◌≤◌, ◌≡◌, refl, sym, ap, ◌∙◌, true, false, ◌&&◌, Option, List, [], ◌∷◌, ◌++◌,
  ltb, leb, length, ◌==◌, if◌then◌else◌, if-cases, none, some, arith, leb→le, leb-false→lt,
}
use agent_board.Prelude.Lists.{
  take, drop, length-append, length-drop, length-take, take-drop, append_assoc, append-nil,
  append-take-zero, length-zero,
}
use agent_board.Sessions.StreamBuffer.{
  StreamBuffer, Written, accepted, err_closed_pipe, ReadResult, bytes, truncated, int64_max, ended,
  read_closed, two64, new_stream_buffer_with_limit, replaced, appended, write, read,
  close_with_error,
}

pub data Op : Type 0 where
  writes : List ℕ → Op
  reads : ℕ → Op
  closes : Option ℕ → Op

-- The buffer, the bytes that writes were told are accepted, and those that readers received.
pub record Trace : Type 0 where
  pub now : StreamBuffer
  pub sent : List ℕ
  pub received : List ℕ

abbrev pub sent_by : Written → List ℕ → List ℕ
sent_by (accepted n) p = p
sent_by err_closed_pipe p = []

abbrev pub received_by : ReadResult → List ℕ
received_by (bytes p) = p
received_by _ = []

unfoldable pub step : Trace → Op → Trace
step t (writes p) = let w = write p t.now in record t { now = w.1; sent = t.sent ++ sent_by w.0 p }
step t (reads n) =
    let r = read n t.now in record t { now = r.1; received = t.received ++ received_by r.0 }
step t (closes e) = record t { now = close_with_error e t.now }

unfoldable pub run_ops : Trace → List Op → Trace
run_ops t [] = t
run_ops t (op ∷ ops) = run_ops (step t op) ops

abbrev pub started : ℕ → Trace
started limit = record { now = new_stream_buffer_with_limit limit; sent = []; received = [] }

-- The buffer holds the end of what was sent, within its limit, and counts what is neither there
-- nor received.
pub record Sound (limit : ℕ) (t : Trace) : Type 0 where
  pub same_limit : t.now.limit ≡ (if ltb limit 1 then 1 else limit)
  pub bounded : length t.now.buffer ≤ t.now.limit
  pub gone : List ℕ
  pub suffix : t.sent ≡ gone ++ t.now.buffer
  pub counted : (t.now.dropped + length t.received) % two64 ≡ length gone % two64
  pub lossless : length t.sent ≤ t.now.limit → (gone ≡ t.received) × (t.now.dropped ≡ 0)

sent-length :
    (t : Trace) (gone : List ℕ)
    → t.sent ≡ gone ++ t.now.buffer
    → length t.sent ≡ length gone + length t.now.buffer
sent-length t gone e = ap length e ∙ length-append gone t.now.buffer

-- What leaves the buffer is counted as dropped.
dropped-counted :
    (d r g x : ℕ) → (d + r) % two64 ≡ g % two64 → ((d + x) % two64 + r) % two64 ≡ (g + x) % two64
dropped-counted d r g x e = omega arith

replaced-Sound :
    {limit : ℕ} (t : Trace) (p : List ℕ)
    → leb t.now.limit (length p) ≡ true
    → Sound limit t
    → Sound limit (record t { now = replaced p t.now; sent = t.sent ++ p })
replaced-Sound t p full s =
    let k : ℕ = length p - t.now.limit in
    let le = leb→le t.now.limit (length p) full in
    let size = sent-length t s.gone s.suffix in
    record {
      same_limit = s.same_limit;
      bounded = omega (arith, length-drop k p, le);
      gone = t.sent ++ take k p;
      suffix =
          sym (append_assoc t.sent (take k p) (drop k p) ∙ ap (λ q. t.sent ++ q) (take-drop k p));
      counted =
          dropped-counted t.now.dropped (length t.received) (length s.gone) _ s.counted
          ∙ ap (λ n. n % two64)
              (omega (arith, length-append t.sent (take k p), length-take k p, size, le));
      lossless = λ h.
          let zeros : (k ≡ 0) × (length t.now.buffer ≡ 0) × (length t.sent ≤ t.now.limit) = (
            omega (arith, h, length-append t.sent p, le),
            omega (arith, h, length-append t.sent p, le, size),
            omega (arith, h, length-append t.sent p),
          ) in
          let old = s.lossless zeros.2 in
          (
            append-take-zero k t.sent p zeros.0
                ∙ s.suffix
                ∙ ap (λ q. s.gone ++ q) (length-zero t.now.buffer zeros.1)
                ∙ append-nil s.gone
                ∙ old.0,
            omega (arith, zeros.0, zeros.1, old.1, le),
          );
    }

appended-Sound :
    {limit : ℕ} (t : Trace) (p : List ℕ)
    → leb t.now.limit (length p) ≡ false
    → Sound limit t
    → Sound limit (record t { now = appended p t.now; sent = t.sent ++ p })
appended-Sound t p full s =
    let o : ℕ = length t.now.buffer + length p - t.now.limit in
    let lt = leb-false→lt t.now.limit (length p) full in
    let size = sent-length t s.gone s.suffix in
    record {
      same_limit = s.same_limit;
      bounded =
          omega (arith, length-append (drop o t.now.buffer) p, length-drop o t.now.buffer, lt);
      gone = s.gone ++ take o t.now.buffer;
      suffix =
          ap (λ q. q ++ p) (s.suffix ∙ ap (λ q. s.gone ++ q) (sym (take-drop o t.now.buffer)))
          ∙ (ap (λ q. q ++ p)
                (sym (append_assoc s.gone (take o t.now.buffer) (drop o t.now.buffer)))
              ∙ append_assoc (s.gone ++ take o t.now.buffer) (drop o t.now.buffer) p);
      counted = ground (
        arith,
        s.counted,
        length-append s.gone (take o t.now.buffer),
        length-take o t.now.buffer,
        lt,
      );
      lossless = λ h.
          let zero : (o ≡ 0) × (length t.sent ≤ t.now.limit) = (
            omega (arith, h, length-append t.sent p, size),
            omega (arith, h, length-append t.sent p),
          ) in
          let old = s.lossless zero.1 in
          (append-take-zero o s.gone t.now.buffer zero.0 ∙ old.0, ground (arith, zero.0, old.1));
    }

read-Sound :
    {limit : ℕ} (t : Trace) (n : ℕ)
    → Sound limit t
    → Sound limit (record t {
      now = record t.now { buffer = drop n t.now.buffer };
      received = t.received ++ take n t.now.buffer;
    })
read-Sound t n s = record {
  same_limit = s.same_limit;
  bounded = omega (arith, s.bounded, length-drop n t.now.buffer);
  gone = s.gone ++ take n t.now.buffer;
  suffix =
      s.suffix
      ∙ (ap (λ q. s.gone ++ q) (sym (take-drop n t.now.buffer))
          ∙ sym (append_assoc s.gone (take n t.now.buffer) (drop n t.now.buffer)));
  counted = omega (
    arith,
    s.counted,
    length-append s.gone (take n t.now.buffer),
    length-append t.received (take n t.now.buffer),
  );
  lossless = λ h. (ap (λ q. q ++ take n t.now.buffer) (s.lossless h).0, (s.lossless h).1);
}

abbrev after_write : Trace → List ℕ → Written × StreamBuffer → Trace
after_write t p w = record t { now = w.1; sent = t.sent ++ sent_by w.0 p }

abbrev after_read : Trace → ReadResult × StreamBuffer → Trace
after_read t r = record t { now = r.1; received = t.received ++ received_by r.0 }

silent-Sound :
    {limit : ℕ} (t : Trace) → Sound limit t → Sound limit (record t { received = t.received ++ [] })
silent-Sound t s = rw (append-nil t.received) s

write-Sound :
    {limit : ℕ} (t : Trace) (p : List ℕ)
    → Sound limit t
    → Sound limit (after_write t p (write p t.now))
unfolding write
write-Sound {limit = limit} t p s =
    if-cases (λ w. Sound limit (after_write t p w)) t.now.closed _ _ (λ c. rw (append-nil t.sent) s)
      (λ c.
        if-cases (λ b. Sound limit (after_write t p (accepted (length p), b)))
          (leb t.now.limit (length p)) _ _ (λ full. replaced-Sound t p full s)
          (λ room. appended-Sound t p room s))

ended-Sound :
    {limit : ℕ} (t : Trace) (e : Option ℕ)
    → Sound limit t
    → Sound limit (after_read t (ended e, t.now))
ended-Sound t none s = silent-Sound t s
ended-Sound t (some e) s = silent-Sound t s

closed-Sound :
    {limit : ℕ} (t : Trace) → Sound limit t → Sound limit (after_read t (read_closed t.now, t.now))
closed-Sound {limit = limit} t s =
    if-cases (λ r. Sound limit (after_read t (r, t.now)))
      (ltb 0 t.now.dropped && leb t.now.dropped int64_max) (truncated t.now.dropped t.now.err)
      (ended t.now.err) (λ _. silent-Sound t s) (λ _. ended-Sound t t.now.err s)

any_read-Sound :
    {limit : ℕ} (t : Trace) (n : ℕ) → Sound limit t → Sound limit (after_read t (read n t.now))
unfolding read
any_read-Sound {limit = limit} t n s =
    if-cases (λ r. Sound limit (after_read t r)) (n == 0) _ _ (λ _. silent-Sound t s)
      (λ _.
        if-cases (λ r. Sound limit (after_read t r)) (ltb 0 (length t.now.buffer)) _ _
          (λ _. read-Sound t n s)
          (λ _.
            if-cases (λ r. Sound limit (after_read t r)) t.now.closed _ _ (λ _. closed-Sound t s)
              (λ _. silent-Sound t s)))

close-Sound :
    {limit : ℕ} (t : Trace) (e : Option ℕ)
    → Sound limit t
    → Sound limit (record t { now = close_with_error e t.now })
unfolding close_with_error
close-Sound {limit = limit} t e s =
    if-cases (λ b. Sound limit (record t { now = b })) t.now.closed _ _ (λ _. s)
      (λ _. record {
        same_limit = s.same_limit;
        bounded = s.bounded;
        gone = s.gone;
        suffix = s.suffix;
        counted = s.counted;
        lossless = s.lossless;
      })

step-Sound : {limit : ℕ} (t : Trace) (op : Op) → Sound limit t → Sound limit (step t op)
unfolding step
step-Sound t (writes p) s = write-Sound t p s
step-Sound t (reads n) s = any_read-Sound t n s
step-Sound t (closes e) s = close-Sound t e s

all-Sound : {limit : ℕ} (t : Trace) (ops : List Op) → Sound limit t → Sound limit (run_ops t ops)
unfolding run_ops
all-Sound t [] s = s
all-Sound t (op ∷ ops) s = all-Sound (step t op) ops (step-Sound t op s)

start-Sound : (limit : ℕ) → Sound limit (started limit)
unfolding new_stream_buffer_with_limit
start-Sound limit = record {
  same_limit = refl;
  bounded = omega arith;
  gone = [];
  suffix = refl;
  counted = refl;
  lossless = λ _. (refl, refl);
}

-- For every limit and every sequence of writes, reads and closes on a new stream buffer, the
-- buffer holds at most its limit; the bytes of the accepted writes, in order, are those that have
-- left the buffer followed by those in it; of those that left, the ones not received are counted
-- as dropped (modulo 2 ^ 64); and while no more bytes than the limit were accepted, nothing is
-- dropped and the readers received exactly what left.
pub run_ops-Sound : (limit : ℕ) (ops : List Op) → Sound limit (run_ops (started limit) ops)
run_ops-Sound limit ops = all-Sound (started limit) ops (start-Sound limit)
