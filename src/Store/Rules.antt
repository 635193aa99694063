-- ===== src/Store/Rules.antt =====
-- Invariants of transactions, one rule for each way to build one.
use agent_board.Prelude.{
  Bool, true, false, Option, none, some, ◌≡◌, refl, ◌⊎◌, inl, inr, arith, if◌then◌else◌,
}
use agent_board.Store.Tx.{
  Error, Result, ok, err, TxOn, pure, fail, ◌>>=◌, ◌>>◌, gets, modify, found, guard, transact,
}

-- What a transaction makes of `P`: when `P` holds before a successful body, `Q` holds of its
-- result and of the database that it leaves.
pub record Ensures {S A : Type 0} (P : S → Type 0) (m : TxOn S A) (Q : A → S → Type 0)
    : Type 0 where
  pub at : (db : S) → P db → (a : A) (db' : S) → m db ≡ ok (a, db') → Q a db'

abbrev pub Keeps : {S A : Type 0} → (S → Type 0) → TxOn S A → Type 0
Keeps P m = Ensures P m (λ _ db. P db)

pub Result-cases {ℓ} :
    {A : Type ℓ} (r : Result A) → ((e : Error) × (r ≡ err e)) ⊎ ((a : A) × (r ≡ ok a))
Result-cases (err e) = inl (e, refl)
Result-cases (ok a) = inr (a, refl)

-- Inversion of a successful bind.
pub >>=-eq-ok :
    {S A B : Type 0} (m : TxOn S A) (f : A → TxOn S B) (db : S) {b : B} {db₂ : S}
    → (m >>= f) db ≡ ok (b, db₂)
    → (a : A) × (db₁ : S) × (m db ≡ ok (a, db₁)) × (f a db₁ ≡ ok (b, db₂))
unfolding ◌>>=◌
>>=-eq-ok m f db h = elim (Result-cases (m db)) [
  | inl (e, p) ↦ absurd (ground arith)
  | inr ((a, db₁), p) ↦ (a, db₁, p, ground arith)
]

module _ {S A : Type 0} {P : S → Type 0} where
  pub Ensures-pure :
      {Q : A → S → Type 0} (a : A) → ((db : S) → P db → Q a db) → Ensures P (pure a) Q
  unfolding pure
  Ensures-pure a h = record { at = λ db p b db' e. ground (arith, h db p) }

  pub Ensures-fail : {Q : A → S → Type 0} (e : Error) → Ensures P (fail e) Q
  unfolding fail
  Ensures-fail e = record { at = λ db p b db' h. absurd (ground arith) }

  pub Ensures-found :
      {Q : A → S → Type 0} (o : Option A)
      → ((a : A) → o ≡ some a → (db : S) → P db → Q a db)
      → Ensures P (found o) Q
  unfolding found
  Ensures-found none h = record { at = λ db p b db' e. absurd (ground arith) }
  Ensures-found (some a) h = record { at = λ db p b db' e. ground (arith, h a refl db p) }

  pub Ensures-gets :
      {Q : A → S → Type 0} (f : S → A) → ((db : S) → P db → Q (f db) db) → Ensures P (gets f) Q
  unfolding gets
  Ensures-gets f h = record { at = λ db p b db' e. ground (arith, h db p) }

  pub Ensures-if :
      {Q : A → S → Type 0} (b : Bool) (m n : TxOn S A)
      → (b ≡ true → Ensures P m Q)
      → (b ≡ false → Ensures P n Q)
      → Ensures P (if b then m else n) Q
  Ensures-if true m n hm hn = hm refl
  Ensures-if false m n hm hn = hn refl

module _ {S : Type 0} {P : S → Type 0} where
  pub Ensures-modify :
      {Q : Unit {0} → S → Type 0} (f : S → S)
      → ((db : S) → P db → Q tt (f db))
      → Ensures P (modify f) Q
  unfolding modify
  Ensures-modify f h = record { at = λ db p b db' e. ground (arith, h db p) }

  pub Ensures-guard :
      {Q : Unit {0} → S → Type 0} (b : Bool) (e : Error)
      → (b ≡ true → (db : S) → P db → Q tt db)
      → Ensures P (guard b e) Q
  unfolding guard
  Ensures-guard true e h = record { at = λ db p b db' e'. ground (arith, h refl db p) }
  Ensures-guard false e h = record { at = λ db p b db' e'. absurd (ground arith) }

module _ {S A B : Type 0} {P : S → Type 0} {R : B → S → Type 0} where
  pub Ensures-bind :
      {Q : A → S → Type 0} (m : TxOn S A) (f : A → TxOn S B)
      → Ensures P m Q
      → ((a : A) → Ensures (Q a) (f a) R)
      → Ensures P (m >>= f) R
  Ensures-bind m f hm hf = record {
    at = λ db p b db' e.
        let (a, db₁, e₁, e₂) = >>=-eq-ok m f db e in (hf a).at db₁ (hm.at db p a db₁ e₁) b db' e₂;
  }

  pub Ensures-then :
      {Q : S → Type 0} (m : TxOn S A) (n : TxOn S B)
      → Ensures P m (λ _ db. Q db)
      → Ensures Q n R
      → Ensures P (m >> n) R
  unfolding ◌>>◌
  Ensures-then m n hm hn = Ensures-bind m (λ _. n) hm (λ _. hn)

module _ {S A : Type 0} {P P' : S → Type 0} {Q : A → S → Type 0} where
  pub Ensures-weaken : (m : TxOn S A) → ((db : S) → P db → P' db) → Ensures P' m Q → Ensures P m Q
  Ensures-weaken m h hm = record { at = λ db p a db' e. hm.at db (h db p) a db' e }

-- What holds before a transaction, whatever the transaction does.
pub Ensures-before :
    {S A R : Type 0} {P : S → Type 0} (m : TxOn S A)
    → ((db : S) → P db → R)
    → Ensures P m (λ _ _. R)
Ensures-before m h = record { at = λ db p a db' e. h db p }

-- A committed transaction.
pub transact-Ensures :
    {S A : Type 0} {P : S → Type 0} {Q : A → S → Type 0} (m : TxOn S A)
    → Ensures P m Q
    → (db : S) → P db
    → (a : A) (db' : S) → transact m db ≡ (ok a, db')
    → Q a db'
unfolding transact
transact-Ensures m h db p a db' e = elim (Result-cases (m db)) [
  | inl (x, q) ↦ absurd (ground arith)
  | inr ((b, db₁), q) ↦ h.at db p a db' (ground arith)
]

-- What a transaction leaves: `R` where it is rolled back, and `R` where it commits.
pub transact-leaves :
    {S A : Type 0} {P R : S → Type 0} (m : TxOn S A)
    → Ensures P m (λ _ db. R db)
    → (db : S) → P db
    → R db
    → R (transact m db).1
unfolding transact
transact-leaves m h db p r = elim (Result-cases (m db)) [
  | inl (e, q) ↦ rw (q, transact) r
  | inr ((a, db'), q) ↦ rw (q, transact) (h.at db p a db' q)
]
