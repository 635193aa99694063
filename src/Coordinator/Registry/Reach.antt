-- ===== src/Coordinator/Registry/Reach.antt =====
-- coordinator.go: which workers a cancellation reaches.
use agent_board.Prelude.{
  ℕ, ◌≡◌, refl, sym, ap, ◌∙◌, Bool, true, false, not, ◌&&◌, ◌||◌, Option, none, some, List, [], ◌∷◌,
  ◌==◌, ==_refl, Bool-cases, inl, inr, arith, if-cases, and-left, and-right,
}
use agent_board.Prelude.Text.{Text, text_eq, text_eq_refl, text_eq→eq, is_blank}
use agent_board.Prelude.Rows.{first}
use agent_board.Prelude.Updates.{first-delete, first-deleted}
use agent_board.Coordinator.Registry.{
  ActiveRun, Registry, has_key, registration, token_is, active_run_key, register_active_run,
  unregister_active_run, cancel_registered, cancel_run,
}

pub data Op : Type 0 where
  registers : (project_id run_id : Text) (cancel : ℕ) → Op
  unregisters : (project_id run_id : Text) (token : ℕ) → Op
  cancels : (project_id run_id : Text) → Op

unfoldable pub step : Registry → Op → Registry
step s (registers p r cancel) = (register_active_run p r cancel s).1
step s (unregisters p r token) = unregister_active_run p r token s
step s (cancels p r) = (cancel_run p r s).1

unfoldable pub run_ops : Registry → List Op → Registry
run_ops s [] = s
run_ops s (op ∷ ops) = run_ops (step s op) ops

-- The operation neither registers the key again nor unregisters it with the token.
abbrev pub spares : Text → ℕ → Op → Bool
spares key token (registers p r cancel) = not (text_eq (active_run_key p r) key)
spares key token (unregisters p r t) = not (text_eq (active_run_key p r) key) || not (t == token)
spares key token (cancels p r) = true

unfoldable pub all_spare : Text → ℕ → List Op → Bool
all_spare key token [] = true
all_spare key token (op ∷ ops) = spares key token op && all_spare key token ops

other_key :
    (key key' : Text) (a : ActiveRun)
    → text_eq key' key ≡ false
    → has_key key a ≡ true
    → has_key key' a ≡ false
other_key key key' a n h = elim (Bool-cases (has_key key' a)) [
  | inl t ↦
      let e = sym (text_eq→eq a.key key' t) ∙ text_eq→eq a.key key h in
      absurd (ground (arith, text_eq_refl key', ap (λ x. text_eq key' x) e))
  | inr t ↦ t
]

found-cancelled :
    (o : Option ActiveRun) (s : Registry) → (cancel_registered o s).1.active ≡ s.active
found-cancelled none s = refl
found-cancelled (some c) s = refl

module _ (key : Text) (a : ActiveRun) where
  found-spares :
      (o : Option ActiveRun) (s : Registry)
      → registration key s ≡ some a
      → registration key (cancel_registered o s).1 ≡ some a
  found-spares o s h = ap (first (has_key key)) (found-cancelled o s) ∙ h

  register-spares :
      (s : Registry) (p r : Text) (c : ℕ)
      → text_eq (active_run_key p r) key ≡ false
      → registration key s ≡ some a
      → registration key (register_active_run p r c s).1 ≡ some a
  unfolding register_active_run first
  register-spares s p r c n h = ground (
    arith,
    n,
    first-delete (has_key key) (has_key (active_run_key p r)) s.active
        (λ x. other_key key (active_run_key p r) x n),
    h,
  )

  unregister-spares :
      (s : Registry) (p r : Text) (t : ℕ)
      → (not (text_eq (active_run_key p r) key) || not (t == a.token)) ≡ true
      → registration key s ≡ some a
      → registration key (unregister_active_run p r t s) ≡ some a
  unfolding unregister_active_run
  unregister-spares s p r t n h =
      if-cases (λ s'. registration key s' ≡ some a) (t == 0) _ _ (λ _. h)
        λ _.
          if-cases (λ s'. registration key s' ≡ some a)
            (token_is t (registration (active_run_key p r) s)) _ _
            (λ mine. elim (Bool-cases (text_eq (active_run_key p r) key)) [
              | inl same ↦
                  let k = text_eq→eq (active_run_key p r) key same in
                  let mine' : (a.token == t) ≡ true =
                    sym (ap (λ x. token_is t (registration x s)) k ∙ ap (token_is t) h) ∙ mine in
                  absurd (ground (arith, same, mine', n))
              | inr other ↦
                  first-delete (has_key key) (has_key (active_run_key p r)) s.active
                    (λ x. other_key key (active_run_key p r) x other)
                  ∙ h
            ])
            (λ _. h)

  cancel-spares :
      (s : Registry) (p r : Text)
      → registration key s ≡ some a
      → registration key (cancel_run p r s).1 ≡ some a
  unfolding cancel_run
  cancel-spares s p r h =
      if-cases (λ (w : Bool × Registry). registration key w.1 ≡ some a) (is_blank p || is_blank r) _
        _ (λ _. h) (λ _. found-spares (registration (active_run_key p r) s) s h)

  step-spares :
      (s : Registry) (op : Op)
      → spares key a.token op ≡ true
      → registration key s ≡ some a
      → registration key (step s op) ≡ some a
  unfolding step
  step-spares s (registers p r c) n h = register-spares s p r c (ground arith) h
  step-spares s (unregisters p r t) n h = unregister-spares s p r t n h
  step-spares s (cancels p r) n h = cancel-spares s p r h

  run_ops-spares :
      (s : Registry) (ops : List Op)
      → all_spare key a.token ops ≡ true
      → registration key s ≡ some a
      → registration key (run_ops s ops) ≡ some a
  unfolding run_ops all_spare
  run_ops-spares s [] n h = h
  run_ops-spares s (op ∷ ops) n h =
      run_ops-spares (step s op) ops (and-right (spares key a.token op) _ n)
        (step-spares s op (and-left (spares key a.token op) _ n) h)

register-registration :
    (s : Registry) (p r : Text) (c : ℕ)
    → registration (active_run_key p r) (register_active_run p r c s).1
      ≡ some
          (record { key = active_run_key p r; token = (register_active_run p r c s).0; cancel = c })
unfolding register_active_run first
register-registration s p r c = ground (arith, text_eq_refl (active_run_key p r))

-- Once a worker has registered a run, whatever other workers register and unregister and whatever
-- is cancelled, with no registration of the same run and no unregistration with the worker's own
-- token among it, a cancellation of the run cancels that worker's context. A worker that
-- unregisters late, with an older token, does not take it away.
pub cancel_run-reaches :
    (s : Registry) (project_id run_id : Text) (cancel : ℕ) (ops : List Op)
    → (is_blank project_id || is_blank run_id) ≡ false
    → all_spare
        (active_run_key project_id run_id)
        (register_active_run project_id run_id cancel s).0
        ops
      ≡ true
    → let s' : Registry = run_ops (register_active_run project_id run_id cancel s).1 ops in
      cancel_run project_id run_id s' ≡ (true, record s' { cancelled = cancel ∷ s'.cancelled })
unfolding cancel_run
cancel_run-reaches s p r c ops b n =
    let a : ActiveRun = record {
      key = active_run_key p r;
      token = (register_active_run p r c s).0;
      cancel = c;
    } in
    let held =
      run_ops-spares (active_run_key p r) a (register_active_run p r c s).1 ops n
        (register-registration s p r c) in
    ground (arith, held, b)

-- A worker that has unregistered with its token is out of reach: a cancellation of the run finds
-- nothing and changes nothing.
pub unregister_active_run-unreached :
    (s : Registry) (project_id run_id : Text) (a : ActiveRun)
    → (a.token == 0) ≡ false
    → registration (active_run_key project_id run_id) s ≡ some a
    → let s' : Registry = unregister_active_run project_id run_id a.token s in
      cancel_run project_id run_id s' ≡ (false, s')
unfolding unregister_active_run cancel_run
unregister_active_run-unreached s p r a z h =
    ground (arith, h, z, ==_refl a.token, first-deleted (has_key (active_run_key p r)) s.active)
