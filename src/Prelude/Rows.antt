-- ===== src/Prelude/Rows.antt =====
-- Tables as lists of rows, and what SQL does to them: WHERE, EXISTS, count(*), UPDATE and DELETE.
use Prim.Native.Nat.{ℕ, suc, ◌+◌, ◌≤◌}
use mathlib.Core.Path.{◌≡◌, refl, sym}
use mathlib.Core.Logic.{◌⊎◌, inl, inr}
use mathlib.Core.Bool.{Bool, true, false, ◌||◌}
use mathlib.Core.Option.{Option, none, some}
use mathlib.Core.List.{List, [], ◌∷◌, ◌++◌}
use native.Mathlib.Omega.{arith}
use agent_board.Prelude.Tests.{if◌then◌else◌, Bool-cases}

module _ {ℓ} {A : Type ℓ} where
  -- The first row that a test accepts.
  unfoldable pub first : (A → Bool) → List A → Option A
  first p [] = none
  first p (x ∷ xs) = if p x then some x else first p xs

  unfoldable pub any : (A → Bool) → List A → Bool
  any p [] = false
  any p (x ∷ xs) = p x || any p xs

  unfoldable pub select : (A → Bool) → List A → List A
  select p [] = []
  select p (x ∷ xs) = let rest = select p xs in if p x then x ∷ rest else rest

  unfoldable pub count : (A → Bool) → List A → ℕ
  count p [] = 0
  count p (x ∷ xs) = let rest = count p xs in if p x then suc rest else rest

  unfoldable pub update : (A → Bool) → (A → A) → List A → List A
  update p f [] = []
  update p f (x ∷ xs) = (if p x then f x else x) ∷ update p f xs

  unfoldable pub delete : (A → Bool) → List A → List A
  delete p [] = []
  delete p (x ∷ xs) = let rest = delete p xs in if p x then rest else x ∷ rest

-- The rows of a table are data of the lowest universe, where `⊥` lives.
module _ {A : Type 0} where
  -- `x` is one of the rows.
  abbrev pub In : A → List A → Type 0
  In x [] = ⊥
  In x (y ∷ ys) = (x ≡ y) ⊎ In x ys

  pub In-first : (p : A → Bool) (xs : List A) {x : A} → first p xs ≡ some x → In x xs × (p x ≡ true)
  unfolding first
  In-first p [] h = absurd (ground arith)
  In-first p (y ∷ ys) {x} h = elim (Bool-cases (p y)) [
    | inl e ↦ let e' : y ≡ x = ground arith in (inl (sym e'), ground arith)
    | inr e ↦ let ih = In-first p ys {x = x} (ground arith) in (inr ih.0, ih.1)
  ]

  pub first-none : (p : A → Bool) (xs : List A) (x : A) → first p xs ≡ none → In x xs → p x ≡ false
  unfolding first
  first-none p [] x h m = absurd m
  first-none p (y ∷ ys) x h (inl e) = ground arith
  first-none p (y ∷ ys) x h (inr m) = first-none p ys x (ground arith) m

  pub any-In : (p : A → Bool) (xs : List A) (x : A) → any p xs ≡ false → In x xs → p x ≡ false
  unfolding any
  any-In p [] x h m = absurd m
  any-In p (y ∷ ys) x h (inl e) = ground arith
  any-In p (y ∷ ys) x h (inr m) = any-In p ys x (ground arith) m

  pub In-any : (p : A → Bool) (xs : List A) (x : A) → In x xs → p x ≡ true → any p xs ≡ true
  unfolding any
  In-any p [] x m h = absurd m
  In-any p (y ∷ ys) x (inl e) h = ground arith
  In-any p (y ∷ ys) x (inr m) h = ground (arith, In-any p ys x m h)

  -- A row of an updated table is an old row that the test refused, or an accepted one rewritten.
  pub In-update :
      (p : A → Bool) (f : A → A) (xs : List A) (x : A)
      → In x (update p f xs)
      → (y : A) × In y xs × (((p y ≡ false) × (x ≡ y)) ⊎ ((p y ≡ true) × (x ≡ f y)))
  unfolding update
  In-update p f [] x m = absurd m
  In-update p f (y ∷ ys) x (inl e) = elim (Bool-cases (p y)) [
    | inl t ↦ (y, inl refl, inr (t, ground arith))
    | inr t ↦ (y, inl refl, inl (t, ground arith))
  ]
  In-update p f (y ∷ ys) x (inr m) = let ih = In-update p f ys x m in (ih.0, inr ih.1, ih.2)

  In-kept :
      (b : Bool) (y : A) (rest : List A) (x : A)
      → In x (if b then rest else y ∷ rest)
      → ((b ≡ false) × (x ≡ y)) ⊎ In x rest
  In-kept true y rest x m = inr m
  In-kept false y rest x (inl e) = inl (refl, e)
  In-kept false y rest x (inr m) = inr m

  pub In-delete :
      (p : A → Bool) (xs : List A) (x : A) → In x (delete p xs) → In x xs × (p x ≡ false)
  unfolding delete
  In-delete p [] x m = absurd m
  In-delete p (y ∷ ys) x m = elim (In-kept (p y) y (delete p ys) x m) [
    | inl (t, e) ↦ (inl e, ground arith)
    | inr n ↦ let ih = In-delete p ys x n in (inr ih.0, ih.1)
  ]

  pub In-append : (xs ys : List A) (x : A) → In x (xs ++ ys) → In x xs ⊎ In x ys
  In-append [] ys x m = inr m
  In-append (y ∷ xs) ys x (inl e) = inl (inl e)
  In-append (y ∷ xs) ys x (inr m) = elim (In-append xs ys x m) [
    | inl a ↦ inl (inr a)
    | inr b ↦ inr b
  ]

  pub count-append : (p : A → Bool) (xs ys : List A) → count p (xs ++ ys) ≡ count p xs + count p ys
  unfolding count
  count-append p [] ys = omega arith
  count-append p (x ∷ xs) ys = ground (arith, count-append p xs ys)

  pub count-delete-le : (p q : A → Bool) (xs : List A) → count p (delete q xs) ≤ count p xs
  unfolding count delete
  count-delete-le p q [] = omega arith
  count-delete-le p q (x ∷ xs) = ground (arith, count-delete-le p q xs)

  pub In-picked :
      (b : Bool) (y : A) (rest : List A) (x : A)
      → In x (if b then y ∷ rest else rest)
      → ((b ≡ true) × (x ≡ y)) ⊎ In x rest
  In-picked true y rest x (inl e) = inl (refl, e)
  In-picked true y rest x (inr m) = inr m
  In-picked false y rest x m = inr m

  pub In-select : (p : A → Bool) (xs : List A) (x : A) → In x (select p xs) → In x xs × (p x ≡ true)
  unfolding select
  In-select p [] x m = absurd m
  In-select p (y ∷ ys) x m = elim (In-picked (p y) y (select p ys) x m) [
    | inl (t, e) ↦ (inl e, ground arith)
    | inr n ↦ let ih = In-select p ys x n in (inr ih.0, ih.1)
  ]
