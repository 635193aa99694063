-- ===== src/Prelude/Counts.antt =====
-- How many rows pass a test, and how many after an update.
use Prim.Native.Nat.{◌+◌, ◌≤◌}
use mathlib.Core.Path.{◌≡◌, refl}
use mathlib.Core.Logic.{inl, inr}
use mathlib.Core.Bool.{Bool, true, false}
use mathlib.Core.Option.{some}
use mathlib.Core.List.{List, [], ◌∷◌}
use native.Mathlib.Omega.{arith}
use agent_board.Prelude.Tests.{Bool-cases}
use agent_board.Prelude.Rows.{first, any, count, update}

module _ {A : Type 0} where
  pub count-none : (p : A → Bool) (xs : List A) → any p xs ≡ false → count p xs ≡ 0
  unfolding any count
  count-none p [] h = refl
  count-none p (x ∷ xs) h = ground (arith, h, count-none p xs (ground (arith, h)))

  pub none-count : (p : A → Bool) (xs : List A) → count p xs ≡ 0 → any p xs ≡ false
  unfolding any count
  none-count p [] h = refl
  none-count p (x ∷ xs) h = elim (Bool-cases (p x)) [
    | inl t ↦ absurd (ground (arith, t, h))
    | inr t ↦ ground (arith, t, none-count p xs (ground (arith, t, h)))
  ]

  pub count_mono :
      (p q : A → Bool) (xs : List A) → ((x : A) → p x ≡ true → q x ≡ true) → count p xs ≤ count q xs
  unfolding count
  count_mono p q [] h = omega arith
  count_mono p q (x ∷ xs) h = elim (Bool-cases (p x)) [
    | inl t ↦ ground (arith, t, h x t, count_mono p q xs h)
    | inr t ↦ ground (arith, t, count_mono p q xs h)
  ]

  -- An update that leaves what a test reads.
  pub count-update_same :
      (p test : A → Bool) (f : A → A) (xs : List A)
      → ((x : A) → test x ≡ true → p (f x) ≡ p x)
      → count p (update test f xs) ≡ count p xs
  unfolding count update
  count-update_same p test f [] h = refl
  count-update_same p test f (x ∷ xs) h = elim (Bool-cases (test x)) [
    | inl t ↦ ground (arith, t, h x t, count-update_same p test f xs h)
    | inr t ↦ ground (arith, t, count-update_same p test f xs h)
  ]

  -- An update whose rows fail another test afterwards.
  pub count-update_le :
      (p test : A → Bool) (f : A → A) (xs : List A)
      → ((x : A) → test x ≡ true → p (f x) ≡ false)
      → count p (update test f xs) ≤ count p xs
  unfolding count update
  count-update_le p test f [] h = omega arith
  count-update_le p test f (x ∷ xs) h = elim (Bool-cases (test x)) [
    | inl t ↦ ground (arith, t, h x t, count-update_le p test f xs h)
    | inr t ↦ ground (arith, t, count-update_le p test f xs h)
  ]

  -- An update makes at most as many rows pass a test as it rewrites.
  pub count-update_sum :
      (p test : A → Bool) (f : A → A) (xs : List A)
      → count p (update test f xs) ≤ count p xs + count test xs
  unfolding count update
  count-update_sum p test f [] = omega arith
  count-update_sum p test f (x ∷ xs) = elim (Bool-cases (test x)) [
    | inl t ↦ ground (arith, t, count-update_sum p test f xs)
    | inr t ↦ ground (arith, t, count-update_sum p test f xs)
  ]

  -- The row that a narrower test finds is counted.
  pub count-pos :
      (p test : A → Bool) (xs : List A) {y : A}
      → first test xs ≡ some y
      → ((x : A) → test x ≡ true → p x ≡ true)
      → 1 ≤ count p xs
  unfolding count first
  count-pos p test [] e h = absurd (ground (arith, e))
  count-pos p test (x ∷ xs) {y} e h = elim (Bool-cases (test x)) [
    | inl t ↦ ground (arith, t, h x t)
    | inr t ↦ ground (arith, count-pos p test xs {y = y} (ground (arith, t, e)) h)
  ]

  -- An update of the only row of a test, after which it fails the test.
  pub count-update_only :
      (p test : A → Bool) (f : A → A) (xs : List A) {y : A}
      → count p xs ≤ 1
      → first test xs ≡ some y
      → ((x : A) → test x ≡ true → (p x ≡ true) × (p (f x) ≡ false))
      → count p (update test f xs) ≡ 0
  unfolding count update first
  count-update_only p test f [] n e h = absurd (ground (arith, e))
  count-update_only p test f (x ∷ xs) {y} n e h = elim (Bool-cases (test x)) [
    | inl t ↦ ground (arith, t, n, h x t, count-update_le p test f xs (λ z u. (h z u).1))
    | inr t ↦ elim (Bool-cases (p x)) [
      | inl u ↦
          let m = count-pos p test xs {y = y} (ground (arith, t, e)) (λ z w. (h z w).0) in
          absurd (ground (arith, u, n, m))
      | inr u ↦ ground (
        arith,
        t,
        u,
        count-update_only p test f xs {y = y} (ground (arith, u, n)) (ground (arith, t, e)) h,
      )
    ]
  ]
