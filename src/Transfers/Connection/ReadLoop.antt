-- ===== src/Transfers/Connection/ReadLoop.antt =====
-- readLoop of apps/server/internal/runner/client.go: the messages of a session among those of
-- others.
use agent_board.Prelude.{
  ℕ, ◌≡◌, refl, sym, ap, ◌∙◌, ==→eq, Bool, true, false, Bool-cases, List, [], ◌∷◌, ◌==◌,
  if◌then◌else◌, inl, inr, arith,
}
use agent_board.Transfers.Protocol.{Encoding}
use agent_board.Transfers.Send.{Body, Message}
use agent_board.Transfers.Connection.{Slot, handle_body, handle_transfer_message, read_loop}

module _ (e : Encoding) where
  -- The messages of one session, until one ends the connection.
  unfoldable pub handle_bodies : List Body → Slot → Bool × Slot
  unfolding handle_body
  handle_bodies [] s = (true, s)
  handle_bodies (b ∷ bs) s =
      let handled = handle_body e b s in
      let rest = handle_bodies bs handled.1 in if handled.0 then rest else (false, handled.1)

-- The payloads of the messages of a session, in their order.
unfoldable pub bodies_of : ℕ → List Message → List Body
bodies_of k [] = []
bodies_of k (m ∷ ms) =
    let rest = bodies_of k ms in if m.session_id == k then m.body ∷ rest else rest

-- The messages of other sessions.
unfoldable pub others_of : ℕ → List Message → List Message
others_of k [] = []
others_of k (m ∷ ms) = let rest = others_of k ms in if m.session_id == k then rest else m ∷ rest

-- The entries after a message that was handled.
after_message : Encoding → Message → (ℕ → Slot) → ℕ → Slot
after_message e m slots j =
    if m.session_id == j then (handle_body e m.body (slots j)).1 else slots j

after_other :
    (e : Encoding) (m : Message) (slots : ℕ → Slot) (j : ℕ)
    → (m.session_id == j) ≡ false
    → after_message e m slots j ≡ slots j
unfolding after_message
after_other e m slots j f = rw (f) refl

-- A message that does not end the connection.
read_loop-handled :
    (e : Encoding) (m : Message) (ms : List Message) (slots : ℕ → Slot)
    → (m.session_id == 0) ≡ false
    → (handle_body e m.body (slots m.session_id)).0 ≡ true
    → read_loop e (m ∷ ms) slots ≡ read_loop e ms (after_message e m slots)
unfolding read_loop handle_transfer_message after_message
read_loop-handled e m ms slots n h = rw (n, h) refl

-- It is one where the connection goes on.
read_loop-goes_on :
    (e : Encoding) (m : Message) (ms : List Message) (slots : ℕ → Slot)
    → (read_loop e (m ∷ ms) slots).0 ≡ true
    → ((m.session_id == 0) ≡ false) × ((handle_body e m.body (slots m.session_id)).0 ≡ true)
unfolding read_loop handle_transfer_message
read_loop-goes_on e m ms slots h = elim (Bool-cases (m.session_id == 0)) [
  | inl t ↦ absurd (ground (arith, h, t))
  | inr f ↦ elim (Bool-cases ((handle_body e m.body (slots m.session_id)).0)) [
    | inl u ↦ (f, u)
    | inr u ↦ absurd (ground (arith, h, f, u))
  ]
]

handle_bodies-goes_on :
    (e : Encoding) (b : Body) (bs : List Body) (s : Slot)
    → (handle_bodies e (b ∷ bs) s).0 ≡ true
    → ((handle_body e b s).0 ≡ true)
      × (handle_bodies e (b ∷ bs) s ≡ handle_bodies e bs (handle_body e b s).1)
unfolding handle_bodies
handle_bodies-goes_on e b bs s h = elim (Bool-cases ((handle_body e b s).0)) [
  | inl u ↦ (u, rw (u) refl)
  | inr u ↦ absurd (ground (arith, h, u))
]

-- The messages of a session and those of others do not meet.
pub read_loop-bodies :
    (e : Encoding) (k : ℕ) (ms : List Message) (slots slots' : ℕ → Slot)
    → (k == 0) ≡ false
    → ((j : ℕ) → (k == j) ≡ false → slots j ≡ slots' j)
    → (read_loop e (others_of k ms) slots').0 ≡ true
    → (handle_bodies e (bodies_of k ms) (slots k)).0 ≡ true
    → ((read_loop e ms slots).0 ≡ true)
      × ((read_loop e ms slots).1 k ≡ (handle_bodies e (bodies_of k ms) (slots k)).1)
unfolding read_loop handle_bodies bodies_of others_of after_message
read_loop-bodies e k [] slots slots' z same o h = (refl, refl)
read_loop-bodies e k (m ∷ ms) slots slots' z same o h = elim (Bool-cases (m.session_id == k)) [
  | inl t ↦
      let q : m.session_id ≡ k = ==→eq m.session_id k t in
      let mine : bodies_of k (m ∷ ms) ≡ m.body ∷ bodies_of k ms = rw (t) refl in
      let left : others_of k (m ∷ ms) ≡ others_of k ms = rw (t) refl in
      let h' = ap (λ bs. (handle_bodies e bs (slots k)).0) (sym mine) ∙ h in
      let (u, v) = handle_bodies-goes_on e m.body (bodies_of k ms) (slots k) h' in
      let here : after_message e m slots k ≡ (handle_body e m.body (slots k)).1 = rw (t) refl in
      let step =
        read_loop-handled e m ms slots (ap (λ x. x == 0) q ∙ z)
          (ap (λ x. (handle_body e m.body (slots x)).0) q ∙ u) in
      let ih =
        read_loop-bodies e k ms (after_message e m slots) slots' z
          (λ j f. after_other e m slots j (ap (λ x. x == j) q ∙ f) ∙ same j f)
          (ap (λ l. (read_loop e l slots').0) (sym left) ∙ o)
          (ap (λ x. (handle_bodies e (bodies_of k ms) x).0) here ∙ ap (λ x. x.0) (sym v) ∙ h') in
      (
        ap (λ x. x.0) step ∙ ih.0,
        ap (λ x. x.1 k) step
            ∙ ih.1
            ∙ ap (λ x. (handle_bodies e (bodies_of k ms) x).1) here
            ∙ ap (λ x. x.1) (sym v)
            ∙ ap (λ bs. (handle_bodies e bs (slots k)).1) (sym mine),
      )
  | inr t ↦
      let same_bodies : bodies_of k (m ∷ ms) ≡ bodies_of k ms = rw (t) refl in
      let left : others_of k (m ∷ ms) ≡ m ∷ others_of k ms = rw (t) refl in
      let o' = ap (λ l. (read_loop e l slots').0) (sym left) ∙ o in
      let (n, u) = read_loop-goes_on e m (others_of k ms) slots' o' in
      let f : (k == m.session_id) ≡ false = ground (arith, t) in
      let step =
        read_loop-handled e m ms slots n
          (ap (λ x. (handle_body e m.body x).0) (same m.session_id f) ∙ u) in
      let here = after_other e m slots k t in
      let ih =
        read_loop-bodies e k ms (after_message e m slots) (after_message e m slots') z
          (λ j g. ap (λ x. if m.session_id == j then (handle_body e m.body x).1 else x) (same j g))
          (ap (λ x. x.0) (sym (read_loop-handled e m (others_of k ms) slots' n u)) ∙ o')
          (ap (λ x. (handle_bodies e (bodies_of k ms) x).0) here
            ∙ ap (λ bs. (handle_bodies e bs (slots k)).0) (sym same_bodies)
            ∙ h) in
      (
        ap (λ x. x.0) step ∙ ih.0,
        ap (λ x. x.1 k) step
            ∙ ih.1
            ∙ ap (λ x. (handle_bodies e (bodies_of k ms) x).1) here
            ∙ ap (λ bs. (handle_bodies e bs (slots k)).1) (sym same_bodies),
      )
]
