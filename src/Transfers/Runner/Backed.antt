-- ===== src/Transfers/Runner/Backed.antt =====
-- The removals of a session's workspace on the runner, and the payloads that it has offered.
use mathlib.Core.Path.{subst}
use agent_board.Prelude.{
  ℕ, ◌≡◌, refl, true, not, ◌&&◌, Bool-cases, Option, none, some, List, [], ◌∷◌, ◌⊎◌, inl, inr, ◌==◌,
  ==→eq, if-cases, arith,
}
use agent_board.Transfers.Protocol.{
  Bytes, Encoding, TransferBegin, TransferChunk, TransferDirection, validate_transfer_begin,
  append_transfer_chunk, validate_transfer_payload,
}
use agent_board.Transfers.Runner.{
  IncomingTransfer, CheckoutState, RemoteWorkspace, RunnerWorkspace, Effect, reported,
  reported_failed, offered, removed, Session, new_session, start_transfer, handle_transfer_begin,
  handle_transfer_chunk, handle_transfer_end, handle_transfer_applied, mark_failed, finish_transfer,
  offer, publish_from, sync_from, publish_remote_workspace, sync_workspace_back,
  prepare_remote_workspace, materialize_local_workspace, prepared, materialized, matches_applied,
  clear_applied, clear_ready, other_transfer, replaces_workspace, chunk_stored, chunk_of,
  end_of_transfer, removed_by,
}

-- A message for the session, with what its workspace answers then.
pub data Input : Type 0 where
  begins : TransferBegin → Input
  chunks : TransferChunk → Input
  ends : RunnerWorkspace → (transfer_id : ℕ) → Input
  applies : RunnerWorkspace → (transfer_id : ℕ) → Input

unfoldable pub handle : Encoding → Input → Session → Session
unfolding handle_transfer_begin handle_transfer_chunk handle_transfer_end handle_transfer_applied
handle e (begins b) s = handle_transfer_begin b s
handle e (chunks c) s = handle_transfer_chunk e c s
handle e (ends w t) s = handle_transfer_end e w t s
handle e (applies w t) s = handle_transfer_applied w t s

unfoldable pub handle_all : Encoding → List Input → Session → Session
unfolding handle
handle_all e [] s = s
handle_all e (i ∷ is) s = handle_all e is (handle e i s)

-- A payload was offered under the id.
abbrev pub WasOffered : ℕ → List Effect → Type 0
WasOffered t [] = ⊥
WasOffered t (offered u payload ∷ rest) = (t ≡ u) ⊎ WasOffered t rest
WasOffered t (reported ∷ rest) = WasOffered t rest
WasOffered t (reported_failed u ∷ rest) = WasOffered t rest
WasOffered t (removed u ∷ rest) = WasOffered t rest

-- Each removal acknowledges an id under which a payload was offered before.
abbrev pub AreBacked : List Effect → Type 0
AreBacked [] = Unit
AreBacked (removed t ∷ rest) = WasOffered t rest × AreBacked rest
AreBacked (offered t payload ∷ rest) = AreBacked rest
AreBacked (reported ∷ rest) = AreBacked rest
AreBacked (reported_failed t ∷ rest) = AreBacked rest

record Backed (s : Session) : Type 0 where
  awaited : (s.awaiting_applied ≡ 0) ⊎ WasOffered s.awaiting_applied s.effects
  backed : AreBacked s.effects

module _ (s : Session) (h : Backed s) where
  offer-Backed : (t : ℕ) (o : Option Bytes) → Backed (offer t o s)
  unfolding offer
  offer-Backed t none = record { awaited = h.awaited; backed = h.backed }
  offer-Backed t (some payload) = record { awaited = inr (inl refl); backed = h.backed }

  publish-Backed :
      (w : RunnerWorkspace) (t : ℕ) (r : Option RemoteWorkspace) → Backed (publish_from w t r s)
  unfolding publish_from
  publish-Backed w t none = record { awaited = h.awaited; backed = h.backed }
  publish-Backed w t (some r) = offer-Backed t (w.publish r)

  sync-Backed :
      (w : RunnerWorkspace) (t : ℕ) (r : Option CheckoutState) → Backed (sync_from w t r s)
  unfolding sync_from
  sync-Backed w t none = record { awaited = h.awaited; backed = h.backed }
  sync-Backed w t (some c) = offer-Backed t (w.snapshot c)

  failed-Backed :
      Backed
        (record s { failed = true; ready = none; remote = none; effects = reported ∷ s.effects })
  failed-Backed = record { awaited = h.awaited; backed = h.backed }

  finish-Backed :
      (w : RunnerWorkspace) (t : ℕ) (d : TransferDirection) (payload : Bytes)
      → Backed (finish_transfer w t d payload s)
  unfolding finish_transfer prepared materialized publish_remote_workspace sync_workspace_back
      prepare_remote_workspace materialize_local_workspace
  finish-Backed w t TransferDirection.from_runner payload =
      if-cases Backed w.has_path _ _ (λ _. sync-Backed w _ s.ready)
        (λ _. record { awaited = h.awaited; backed = h.backed })
  finish-Backed w t TransferDirection.git_publish payload = publish-Backed w _ s.remote
  finish-Backed w t TransferDirection.git_prepare payload =
      if-cases Backed w.has_path _ _
        (λ _. elim (w.prepare payload) as (λ o. Backed (prepared o s)) [
          | none ↦ failed-Backed
          | some r ↦ record { awaited = h.awaited; backed = h.backed }
        ])
        (λ _. failed-Backed)
  finish-Backed w t TransferDirection.to_runner payload =
      if-cases Backed w.has_path _ _
        (λ _. elim (w.materialize payload) as (λ o. Backed (materialized o s)) [
          | none ↦ failed-Backed
          | some r ↦ record { awaited = h.awaited; backed = h.backed }
        ])
        (λ _. failed-Backed)
  finish-Backed w t TransferDirection.other_direction payload = h

  chunk-Backed : (o : Option Bytes) (t : IncomingTransfer) → Backed (chunk_stored o t s)
  chunk-Backed none t = record { awaited = h.awaited; backed = h.backed }
  chunk-Backed (some buffer) t = record { awaited = h.awaited; backed = h.backed }

  start-Backed : (b : TransferBegin) → Backed (start_transfer b s)
  unfolding start_transfer
  start-Backed b = elim (Bool-cases (replaces_workspace b.direction)) [
    | inl t ↦ rw (t) (record { awaited = h.awaited; backed = h.backed })
    | inr t ↦ rw (t) (record { awaited = h.awaited; backed = h.backed })
  ]

  begin-Backed : (b : TransferBegin) → Backed (handle_transfer_begin b s)
  unfolding handle_transfer_begin
  begin-Backed b =
      if-cases Backed (validate_transfer_begin b) _ _ (λ _. start-Backed b)
        (λ _. record { awaited = h.awaited; backed = h.backed })

  chunks-Backed : (e : Encoding) (c : TransferChunk) → Backed (handle_transfer_chunk e c s)
  unfolding handle_transfer_chunk
  chunks-Backed e c = elim s.incoming as (λ o. Backed (chunk_of e c o s)) [
    | none ↦ record { awaited = h.awaited; backed = h.backed }
    | some t ↦
        if-cases Backed (other_transfer c.transfer_id t) _ _ (λ _. h)
          (λ _. chunk-Backed (append_transfer_chunk e t.buffer t.expected c) t)
  ]

  applied-Backed : (w : RunnerWorkspace) (t : ℕ) → Backed (handle_transfer_applied w t s)
  unfolding handle_transfer_applied matches_applied clear_applied clear_ready
  applied-Backed w t = elim (Bool-cases (s.awaiting_applied == t && not (t == 0))) [
    | inl m ↦
        let same : s.awaiting_applied ≡ t = ==→eq _ _ (ground (arith, m)) in
        let offered_before : WasOffered t s.effects = elim h.awaited [
          | inl z ↦ absurd (ground (arith, m, z))
          | inr o ↦ subst (λ x. WasOffered x s.effects) same o
        ] in
        let equal : (s.awaiting_applied == t) ≡ true = ground (arith, m) in
        rw (m) (
          if-cases Backed (removed_by w s.remote) _ _
            (λ _. rw (equal) (record { awaited = inl refl; backed = (offered_before, h.backed) }))
            (λ _. record { awaited = h.awaited; backed = h.backed }))
    | inr m ↦ rw (m) (record { awaited = h.awaited; backed = h.backed })
  ]

without_incoming : (s : Session) → Backed s → Backed (record s { incoming = none })
without_incoming s h = record { awaited = h.awaited; backed = h.backed }

end-Backed :
    (e : Encoding) (w : RunnerWorkspace) (t : ℕ) (s : Session)
    → Backed s
    → Backed (handle_transfer_end e w t s)
unfolding handle_transfer_end end_of_transfer mark_failed
end-Backed e w t s h = elim s.incoming as (λ o. Backed (end_of_transfer e w t o s)) [
  | none ↦ record { awaited = h.awaited; backed = h.backed }
  | some i ↦
      if-cases Backed (other_transfer t i) _ _ (λ _. h)
        (λ _.
          if-cases Backed (validate_transfer_payload e i.buffer i.expected i.checksum) _ _
            (λ _. finish-Backed _ (without_incoming s h) w t i.direction i.buffer)
            (λ _. record { awaited = h.awaited; backed = h.backed }))
]

handle-Backed : (e : Encoding) (i : Input) (s : Session) → Backed s → Backed (handle e i s)
unfolding handle
handle-Backed e (begins b) s h = begin-Backed s h b
handle-Backed e (chunks c) s h = chunks-Backed s h e c
handle-Backed e (ends w t) s h = end-Backed e w t s h
handle-Backed e (applies w t) s h = applied-Backed s h w t

all-Backed : (e : Encoding) (is : List Input) (s : Session) → Backed s → Backed (handle_all e is s)
unfolding handle_all
all-Backed e [] s h = h
all-Backed e (i ∷ is) s h = all-Backed e is (handle e i s) (handle-Backed e i s h)

-- Whatever messages come for a session, and whatever Git and the file system answer, its workspace
-- is removed on an acknowledgement only under an id under which the runner has offered a payload
-- before.
pub handle_all-AreBacked :
    (e : Encoding) (inputs : List Input) → AreBacked (handle_all e inputs new_session).effects
handle_all-AreBacked e inputs =
    (all-Backed e inputs new_session (record { awaited = inl refl; backed = tt })).backed
