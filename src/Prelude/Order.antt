-- ===== src/Prelude/Order.antt =====
-- ORDER BY … LIMIT 1: the row that goes before every other.
use mathlib.Core.Path.{◌≡◌}
use mathlib.Core.Logic.{◌≢◌, ◌⊎◌, inl, inr}
use mathlib.Core.Bool.{Bool, true, false}
use mathlib.Core.Option.{Option, none, some}
use mathlib.Core.List.{List, [], ◌∷◌}
use native.Mathlib.Omega.{arith}
use agent_board.Prelude.Tests.{if◌then◌else◌, Bool-cases}
use agent_board.Prelude.Rows.{In}

module _ {A : Type 0} where
  -- The first of the least rows, where `b` is the least one so far.
  unfoldable pub best : (A → A → Bool) → Option A → List A → Option A
  best before b [] = b
  best before none (c ∷ cs) = best before (some c) cs
  best before (some b) (c ∷ cs) = best before (some (if before c b then c else b)) cs

  pub best-In :
      (before : A → A → Bool) (b : Option A) (xs : List A) (x : A)
      → best before b xs ≡ some x
      → (b ≡ some x) ⊎ In x xs
  unfolding best
  best-In before b [] x e = inl e
  best-In before none (r ∷ rs) x e = elim (best-In before (some r) rs x e) [
    | inl h ↦ inr (inl (ground arith))
    | inr i ↦ inr (inr i)
  ]
  best-In before (some b) (r ∷ rs) x e =
      elim (best-In before (some (if before r b then r else b)) rs x e) [
        | inl h ↦ elim (Bool-cases (before r b)) [
          | inl t ↦ inr (inl (ground arith))
          | inr t ↦ inl (ground arith)
        ]
        | inr i ↦ inr (inr i)
      ]

  best-some : (before : A → A → Bool) (b : A) (xs : List A) → best before (some b) xs ≢ none
  unfolding best
  best-some before b [] e = absurd (ground arith)
  best-some before b (r ∷ rs) e = best-some before (if before r b then r else b) rs e

  pub best-none :
      (before : A → A → Bool) (xs : List A) (x : A) → best before none xs ≡ none → In x xs → ⊥
  unfolding best
  best-none before [] x e m = m
  best-none before (r ∷ rs) x e m = best-some before r rs e

-- A strict order.
pub record IsOrder {A : Type 0} (before : A → A → Bool) : Type 0 where
  pub irreflexive : (a : A) → before a a ≡ false
  pub transitive : (a b c : A) → before a b ≡ true → before b c ≡ true → before a c ≡ true

module _ {A : Type 0} (before : A → A → Bool) (order : IsOrder before) where
  -- Nothing that the least row so far beats is before the result.
  best-keeps :
      (b : A) (xs : List A) (c x : A)
      → best before (some b) xs ≡ some c
      → before x b ≡ false
      → before x c ≡ false
  unfolding best
  best-keeps b [] c x e h = ground arith
  best-keeps b (r ∷ rs) c x e h = elim (Bool-cases (before r b)) [
    | inl t ↦ best-keeps r rs c x (ground arith) (elim (Bool-cases (before x r)) [
      | inl u ↦ absurd (ground (arith, order.transitive x r b u t))
      | inr u ↦ u
    ])
    | inr t ↦ best-keeps b rs c x (ground arith) h
  ]

  best-rest :
      (b : A) (xs : List A) (c x : A)
      → best before (some b) xs ≡ some c
      → In x xs
      → before x c ≡ false
  unfolding best
  best-rest b (r ∷ rs) c x e (inl i) = elim (Bool-cases (before r b)) [
    | inl t ↦ best-keeps r rs c x (ground arith) (ground (arith, order.irreflexive r))
    | inr t ↦ best-keeps b rs c x (ground arith) (ground arith)
  ]
  best-rest b (r ∷ rs) c x e (inr m) = best-rest (if before r b then r else b) rs c x e m
  best-rest b [] c x e m = absurd m

  pub best-least :
      (xs : List A) (c x : A) → best before none xs ≡ some c → In x xs → before x c ≡ false
  unfolding best
  best-least (r ∷ rs) c x e (inl i) = best-keeps r rs c x e (ground (arith, order.irreflexive r))
  best-least (r ∷ rs) c x e (inr m) = best-rest r rs c x e m
  best-least [] c x e m = absurd m
