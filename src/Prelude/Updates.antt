-- ===== src/Prelude/Updates.antt =====
-- What updating, deleting and inserting rows does to the queries over a table.
use mathlib.Core.Path.{◌≡◌, refl, ap}
use mathlib.Core.Logic.{inl, inr}
use mathlib.Core.Bool.{Bool, true, false}
use mathlib.Core.Option.{none, some}
use mathlib.Core.List.{List, [], ◌∷◌, ◌++◌}
use native.Mathlib.Omega.{arith}
use agent_board.Prelude.Tests.{if◌then◌else◌, Bool-cases}
use agent_board.Prelude.Rows.{In, In-any, first, any, select, update, delete}

module _ {ℓ} {A : Type ℓ} where
  pub any-delete : (p : A → Bool) (xs : List A) → any p (delete p xs) ≡ false
  unfolding any delete
  any-delete p [] = refl
  any-delete p (x ∷ xs) = ground (arith, any-delete p xs)

  -- An update whose rows no longer pass the test.
  pub any-update :
      (p : A → Bool) (f : A → A) (xs : List A)
      → ((x : A) → p x ≡ true → p (f x) ≡ false)
      → any p (update p f xs) ≡ false
  unfolding any update
  any-update p f [] h = refl
  any-update p f (x ∷ xs) h = elim (Bool-cases (p x)) [
    | inl e ↦ ground (arith, any-update p f xs h, h x e)
    | inr e ↦ ground (arith, any-update p f xs h)
  ]

  pub update-none : (p : A → Bool) (f : A → A) (xs : List A) → any p xs ≡ false → update p f xs ≡ xs
  unfolding any update
  update-none p f [] h = refl
  update-none p f (x ∷ xs) h = ground (arith, h, update-none p f xs (ground (arith, h)))

  pub first-any : (p : A → Bool) (xs : List A) {x : A} → first p xs ≡ some x → any p xs ≡ true
  unfolding first any
  first-any p [] e = absurd (ground arith)
  first-any p (y ∷ ys) {x} e = elim (Bool-cases (p y)) [
    | inl t ↦ ground arith
    | inr t ↦ ground (arith, first-any p ys {x = x} (ground arith))
  ]

  pub first-append :
      (p : A → Bool) (xs : List A) (x : A)
      → any p xs ≡ false
      → p x ≡ true
      → first p (xs ++ x ∷ []) ≡ some x
  unfolding first any
  first-append p [] x n t = ground arith
  first-append p (y ∷ ys) x n t = ground (arith, first-append p ys x (ground arith) t)

module _ {A : Type 0} where
  pub select-In : (p : A → Bool) (xs : List A) (x : A) → In x xs → p x ≡ true → In x (select p xs)
  unfolding select
  select-In p [] x m t = absurd m
  select-In p (y ∷ ys) x (inl e) t = rw (← e, t) (inl refl)
  select-In p (y ∷ ys) x (inr m) t = elim (Bool-cases (p y)) [
    | inl u ↦ rw (u) (inr (select-In p ys x m t))
    | inr u ↦ rw (u) (select-In p ys x m t)
  ]

module _ {ℓ} {A : Type ℓ} where
  -- Deleting other rows does not change the first row of a test.
  pub first-delete :
      (p q : A → Bool) (xs : List A)
      → ((x : A) → p x ≡ true → q x ≡ false)
      → first p (delete q xs) ≡ first p xs
  unfolding first delete
  first-delete p q [] h = refl
  first-delete p q (x ∷ xs) h = elim (Bool-cases (p x)) [
    | inl t ↦ ground (arith, h x t)
    | inr t ↦ ground (arith, first-delete p q xs h)
  ]

  pub first-deleted : (p : A → Bool) (xs : List A) → first p (delete p xs) ≡ none
  unfolding first delete
  first-deleted p [] = refl
  first-deleted p (x ∷ xs) = ground (arith, first-deleted p xs)

module _ {ℓ} {A : Type ℓ} where
  -- An update that leaves what a test reads rewrites the first row of the test in place.
  pub first-update :
      (p test : A → Bool) (f : A → A) (xs : List A) {y : A}
      → ((x : A) → test x ≡ true → p (f x) ≡ p x)
      → first p xs ≡ some y
      → first p (update test f xs) ≡ some (if test y then f y else y)
  unfolding first update
  first-update p test f [] h e = absurd (ground arith)
  first-update p test f (x ∷ xs) {y} h e =
      let same : p (if test x then f x else x) ≡ p x = elim (Bool-cases (test x)) [
        | inl t ↦ rw (t) (h x t)
        | inr t ↦ rw (t) refl
      ] in
      elim (Bool-cases (p x)) [
        | inl t ↦ let q : x ≡ y = ground arith in rw (same, t, ← q) refl
        | inr t ↦ rw (same, t) (first-update p test f xs {y = y} h (ground arith))
      ]

module _ {ℓ} {A : Type ℓ} where
  pub select-append :
      (p : A → Bool) (xs ys : List A) → select p (xs ++ ys) ≡ select p xs ++ select p ys
  unfolding select
  select-append p [] ys = refl
  select-append p (x ∷ xs) ys = ground (arith, select-append p xs ys)

  -- Two tests may trade places.
  pub select-select :
      (p q : A → Bool) (xs : List A) → select p (select q xs) ≡ select q (select p xs)
  unfolding select
  select-select p q [] = refl
  select-select p q (x ∷ xs) = ground (arith, select-select p q xs)

  pub select-delete :
      (p q : A → Bool) (xs : List A) → select p (delete q xs) ≡ delete q (select p xs)
  unfolding select delete
  select-delete p q [] = refl
  select-delete p q (x ∷ xs) = ground (arith, select-delete p q xs)

module _ {ℓ} {A : Type ℓ} where
  -- An update of rows that a test refuses, before and after, leaves the first row of the test.
  pub first-update_other :
      (p test : A → Bool) (f : A → A) (xs : List A)
      → ((x : A) → test x ≡ true → (p x ≡ false) × (p (f x) ≡ false))
      → first p (update test f xs) ≡ first p xs
  unfolding first update
  first-update_other p test f [] h = refl
  first-update_other p test f (x ∷ xs) h = elim (Bool-cases (test x)) [
    | inl t ↦ rw (t, (h x t).0, (h x t).1) (first-update_other p test f xs h)
    | inr t ↦ rw (t) (ap (λ r. if p x then some x else r) (first-update_other p test f xs h))
  ]

  pub first-append_found :
      (p : A → Bool) (xs ys : List A) {y : A} → first p xs ≡ some y → first p (xs ++ ys) ≡ some y
  unfolding first
  first-append_found p [] ys e = absurd (ground (arith, e))
  first-append_found p (x ∷ xs) ys {y} e = elim (Bool-cases (p x)) [
    | inl t ↦ ground (arith, t, e)
    | inr t ↦ rw (t) (first-append_found p xs ys {y = y} (ground (arith, t, e)))
  ]

module _ {A : Type 0} where
  pub delete-In : (p : A → Bool) (xs : List A) (x : A) → In x xs → p x ≡ false → In x (delete p xs)
  unfolding delete
  delete-In p [] x m t = absurd m
  delete-In p (y ∷ ys) x (inl e) t = rw (← e, t) (inl refl)
  delete-In p (y ∷ ys) x (inr m) t = elim (Bool-cases (p y)) [
    | inl u ↦ rw (u) (delete-In p ys x m t)
    | inr u ↦ rw (u) (inr (delete-In p ys x m t))
  ]

  pub update-In :
      (p : A → Bool) (f : A → A) (xs : List A) (x : A)
      → In x xs
      → p x ≡ false
      → In x (update p f xs)
  unfolding update
  update-In p f [] x m t = absurd m
  update-In p f (y ∷ ys) x (inl e) t = rw (← e, t) (inl refl)
  update-In p f (y ∷ ys) x (inr m) t = inr (update-In p f ys x m t)

  pub any-some : (p : A → Bool) (xs : List A) → any p xs ≡ true → (x : A) × In x xs × (p x ≡ true)
  unfolding any
  any-some p [] h = absurd (ground (arith, h))
  any-some p (x ∷ xs) h = elim (Bool-cases (p x)) [
    | inl t ↦ (x, inl refl, t)
    | inr t ↦ let ih = any-some p xs (ground (arith, t, h)) in (ih.0, inr ih.1, ih.2)
  ]

  pub any_mono :
      (p q : A → Bool) (xs : List A)
      → ((x : A) → p x ≡ true → q x ≡ true)
      → any p xs ≡ true
      → any q xs ≡ true
  any_mono p q xs m h =
      let found = any-some p xs h in In-any q xs found.0 found.1 (m found.0 found.2)

module _ {A : Type 0} where
  pub In-append_left : (xs ys : List A) (x : A) → In x xs → In x (xs ++ ys)
  In-append_left [] ys x m = absurd m
  In-append_left (y ∷ xs) ys x (inl e) = inl e
  In-append_left (y ∷ xs) ys x (inr m) = inr (In-append_left xs ys x m)

  pub In-append_right : (xs ys : List A) (x : A) → In x ys → In x (xs ++ ys)
  In-append_right [] ys x m = m
  In-append_right (y ∷ xs) ys x m = inr (In-append_right xs ys x m)
