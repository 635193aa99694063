-- ===== src/Prelude/Sort.antt =====
-- ORDER BY: the rows in an order, by insertion.
use Prim.Native.Nat.{◌≤◌}
use mathlib.Core.Path.{◌≡◌, refl}
use mathlib.Core.Logic.{◌⊎◌, inl, inr}
use mathlib.Core.Bool.{Bool, true, false}
use mathlib.Core.List.{List, [], ◌∷◌}
use native.Mathlib.Omega.{arith}
use agent_board.Prelude.Tests.{if◌then◌else◌, Bool-cases}
use agent_board.Prelude.Rows.{In, count, select}
use agent_board.Prelude.Order.{IsOrder}

module _ {A : Type 0} where
  unfoldable pub insert : (A → A → Bool) → A → List A → List A
  insert before x [] = x ∷ []
  insert before x (y ∷ ys) =
      let rest = insert before x ys in if before x y then x ∷ y ∷ ys else y ∷ rest

  unfoldable pub sort : (A → A → Bool) → List A → List A
  unfolding insert
  sort before [] = []
  sort before (x ∷ xs) = insert before x (sort before xs)

  -- No row is before one that stands to the left of it.
  abbrev pub Sorted : (A → A → Bool) → List A → Type 0
  Sorted before [] = Unit {0}
  Sorted before (x ∷ xs) = ((y : A) → In y xs → before y x ≡ false) × Sorted before xs

  module _ (before : A → A → Bool) where
    placed :
        (b : Bool) (x y : A) (ys rest : List A) (z : A)
        → In z (if b then x ∷ y ∷ ys else y ∷ rest)
        → ((z ≡ x) ⊎ In z (y ∷ ys)) ⊎ In z (y ∷ rest)
    placed true x y ys rest z m = inl m
    placed false x y ys rest z m = inr m

    insert-In : (x : A) (ys : List A) (z : A) → In z (insert before x ys) → (z ≡ x) ⊎ In z ys
    unfolding insert
    insert-In x [] z (inl e) = inl e
    insert-In x [] z (inr m) = absurd m
    insert-In x (y ∷ ys) z m = elim (placed (before x y) x y ys (insert before x ys) z m) [
      | inl k ↦ k
      | inr (inl e) ↦ inr (inl e)
      | inr (inr n) ↦ elim (insert-In x ys z n) [ inl e ↦ inl e | inr k ↦ inr (inr k) ]
    ]

    In-insert_head : (x : A) (ys : List A) → In x (insert before x ys)
    unfolding insert
    In-insert_head x [] = inl refl
    In-insert_head x (y ∷ ys) = elim (Bool-cases (before x y)) [
      | inl t ↦ rw (t) (inl refl)
      | inr t ↦ rw (t) (inr (In-insert_head x ys))
    ]

    In-insert : (x : A) (ys : List A) (z : A) → In z ys → In z (insert before x ys)
    unfolding insert
    In-insert x [] z m = absurd m
    In-insert x (y ∷ ys) z (inl e) = elim (Bool-cases (before x y)) [
      | inl t ↦ rw (t) (inr (inl e))
      | inr t ↦ rw (t) (inl e)
    ]
    In-insert x (y ∷ ys) z (inr m) = elim (Bool-cases (before x y)) [
      | inl t ↦ rw (t) (inr (inr m))
      | inr t ↦ rw (t) (inr (In-insert x ys z m))
    ]

    pub sort-In : (xs : List A) (z : A) → In z (sort before xs) → In z xs
    unfolding sort
    sort-In [] z m = absurd m
    sort-In (x ∷ xs) z m = elim (insert-In x (sort before xs) z m) [
      | inl e ↦ inl e
      | inr n ↦ inr (sort-In xs z n)
    ]

    pub In-sort : (xs : List A) (z : A) → In z xs → In z (sort before xs)
    unfolding sort
    In-sort [] z m = absurd m
    In-sort (x ∷ xs) z (inl e) = rw (e) (In-insert_head x (sort before xs))
    In-sort (x ∷ xs) z (inr m) = In-insert x (sort before xs) z (In-sort xs z m)

    module _ (order : IsOrder before) where
      not_before :
          (x y : A) (ys : List A) (z : A)
          → before x y ≡ true
          → Sorted before (y ∷ ys)
          → In z (y ∷ ys)
          → before z x ≡ false
      not_before x y ys z t s m = elim (Bool-cases (before z x)) [
        | inr f ↦ f
        | inl u ↦ elim (m) [
          | inl e ↦ absurd (ground (arith, order.transitive z x y u t, order.irreflexive y, e))
          | inr n ↦ absurd (ground (arith, order.transitive z x y u t, s.0 z n))
        ]
      ]

      insert-Sorted : (x : A) (ys : List A) → Sorted before ys → Sorted before (insert before x ys)
      unfolding insert
      insert-Sorted x [] s = (λ y m. absurd m, tt)
      insert-Sorted x (y ∷ ys) s = elim (Bool-cases (before x y)) [
        | inl t ↦ rw (t) (λ z m. not_before x y ys z t s m, s)
        | inr t ↦ rw (t) (
          λ z m. elim (insert-In x ys z m) [ inl e ↦ rw (e) t | inr n ↦ s.0 z n ],
          insert-Sorted x ys s.1,
        )
      ]

      pub sort-Sorted : (xs : List A) → Sorted before (sort before xs)
      unfolding sort
      sort-Sorted [] = tt
      sort-Sorted (x ∷ xs) = insert-Sorted x (sort before xs) (sort-Sorted xs)

    pub count-insert :
        (p : A → Bool) (x : A) (ys : List A) → count p (insert before x ys) ≡ count p (x ∷ ys)
    unfolding insert count
    count-insert p x [] = refl
    count-insert p x (y ∷ ys) = elim (Bool-cases (before x y)) [
      | inl t ↦ rw (t) refl
      | inr t ↦ rw (t) (ground (arith, count-insert p x ys))
    ]

    pub count-sort : (p : A → Bool) (xs : List A) → count p (sort before xs) ≡ count p xs
    unfolding sort count
    count-sort p [] = refl
    count-sort p (x ∷ xs) = ground (arith, count-insert p x (sort before xs), count-sort p xs)

  pub count-select : (p q : A → Bool) (xs : List A) → count p (select q xs) ≤ count p xs
  unfolding select count
  count-select p q [] = omega arith
  count-select p q (x ∷ xs) = ground (arith, count-select p q xs)
