-- ===== src/Store/Keeps.antt =====
-- The rules of `Store.Rules` for an invariant that every step of a transaction keeps.
use agent_board.Prelude.{Bool, true, false, Option, none, some, inl, inr, if◌then◌else◌}
use agent_board.Store.Tx.{
  Error, TxOn, pure, fail, ◌>>=◌, ◌>>◌, gets, modify, found, scanned, guard, transact,
}
use agent_board.Store.Rules.{
  Keeps, Ensures-pure, Ensures-fail, Ensures-found, Ensures-gets, Ensures-modify, Ensures-guard,
  Ensures-bind, Result-cases,
}

module _ {S : Type 0} {P : S → Type 0} where
  pub Keeps-pure : {A : Type 0} (a : A) → Keeps P (pure a)
  Keeps-pure a = Ensures-pure a (λ db p. p)

  pub Keeps-fail : {A : Type 0} (e : Error) → Keeps P (fail {A = A} e)
  Keeps-fail e = Ensures-fail e

  pub Keeps-found : {A : Type 0} (o : Option A) → Keeps P (found o)
  Keeps-found o = Ensures-found o (λ a e db p. p)

  pub Keeps-scanned : {A : Type 0} (o : Option A) → Keeps P (scanned o)
  unfolding scanned
  Keeps-scanned none = Ensures-fail _
  Keeps-scanned (some a) = Ensures-pure a (λ db p. p)

  pub Keeps-gets : {A : Type 0} (f : S → A) → Keeps P (gets f)
  Keeps-gets f = Ensures-gets f (λ db p. p)

  pub Keeps-guard : (b : Bool) (e : Error) → Keeps P (guard b e)
  Keeps-guard b e = Ensures-guard b e (λ h db p. p)

  pub Keeps-modify : (f : S → S) → ((db : S) → P db → P (f db)) → Keeps P (modify f)
  Keeps-modify f h = Ensures-modify f h

  pub Keeps-bind :
      {A B : Type 0} (m : TxOn S A) (f : A → TxOn S B)
      → Keeps P m
      → ((a : A) → Keeps P (f a))
      → Keeps P (m >>= f)
  Keeps-bind m f hm hf = Ensures-bind m f hm hf

  pub Keeps-then :
      {A B : Type 0} (m : TxOn S A) (n : TxOn S B) → Keeps P m → Keeps P n → Keeps P (m >> n)
  unfolding ◌>>◌
  Keeps-then m n hm hn = Ensures-bind m (λ _. n) hm (λ _. hn)

  pub Keeps-if :
      {A : Type 0} (b : Bool) (m n : TxOn S A)
      → Keeps P m
      → Keeps P n
      → Keeps P (if b then m else n)
  Keeps-if true m n hm hn = hm
  Keeps-if false m n hm hn = hn

  -- A committed body and a rolled back one.
  pub transact-Keeps :
      {A : Type 0} (m : TxOn S A) → Keeps P m → (db : S) → P db → P (transact m db).1
  unfolding transact
  transact-Keeps m h db p = elim (Result-cases (m db)) [
    | inl (e, q) ↦ rw (q, transact) p
    | inr ((a, db'), q) ↦ rw (q, transact) (h.at db p a db' q)
  ]

pub ruleset keeps_rules = (
  Keeps-pure, Keeps-fail, Keeps-found, Keeps-scanned, Keeps-gets, Keeps-guard, Keeps-bind,
  Keeps-then, Keeps-if,
)
