-- ===== src/Issues/Board/Neighbours.antt =====
-- board_order.go: the index that placementIndex finds for the neighbours.
use agent_board.Prelude.{
  ℕ, suc, ◌+◌, ◌≡◌, refl, ap, true, ◌&&◌, Bool-cases, Option, none, some, List, [], ◌∷◌, ◌==◌,
  ==→eq, inl, inr, arith,
}
use agent_board.Prelude.Lists.{take, drop}
use agent_board.Store.Tx.{ok}
use agent_board.Issues.Board.{first_is, last_is, count_ids, adjacent, between, placement_index}
use agent_board.Issues.Board.Placement.{after}

abbrev pub head_id : List ℕ → Option ℕ
head_id [] = none
head_id (x ∷ xs) = some x

abbrev pub last_id : List ℕ → Option ℕ
last_id [] = none
last_id (x ∷ []) = some x
last_id (x ∷ y ∷ ys) = last_id (y ∷ ys)

-- The index that placementIndex gives splits the ids between the neighbours asked for.
last_is-last : (b : ℕ) (ids : List ℕ) → last_is b ids ≡ true → last_id ids ≡ some b
last_is-last b [] h = absurd (ground (arith, h))
last_is-last b (x ∷ []) h = ap some (==→eq x b h)
last_is-last b (x ∷ y ∷ ys) h = last_is-last b (y ∷ ys) h

first_is-head : (a : ℕ) (ids : List ℕ) → first_is a ids ≡ true → head_id ids ≡ some a
first_is-head a [] h = absurd (ground (arith, h))
first_is-head a (x ∷ xs) h = ap some (==→eq x a h)

take-all : (ids : List ℕ) → take (count_ids ids) ids ≡ ids
unfolding take
take-all [] = refl
take-all (x ∷ xs) = ap (λ ys. x ∷ ys) (take-all xs)

drop-all : (ids : List ℕ) → drop (count_ids ids) ids ≡ []
unfolding drop
drop-all [] = refl
drop-all (x ∷ xs) = drop-all xs

record Between (before after previous : ℕ) (ids : List ℕ) (k j : ℕ) : Type 0 where
  steps : ℕ
  is_index : j ≡ k + steps
  is_before : last_id (previous ∷ take steps ids) ≡ some before
  is_after : head_id (drop steps ids) ≡ some after

adjacent-Between :
    (before after previous : ℕ) (ids : List ℕ) (k j : ℕ)
    → adjacent before after previous ids k ≡ ok j
    → Between before after previous ids k j
unfolding adjacent take drop
adjacent-Between before after previous [] k j h = absurd (ground (arith, h))
adjacent-Between before after previous (x ∷ xs) k j h =
    elim (Bool-cases (previous == before && x == after)) [
      | inl t ↦ record {
        steps = 0;
        is_index = ground (arith, t, h);
        is_before = ap some (==→eq previous before (ground (arith, t)));
        is_after = ap some (==→eq x after (ground (arith, t)));
      }
      | inr f ↦
          let rest = adjacent-Between before after x xs (k + 1) j (ground (arith, f, h)) in
          record {
            steps = suc rest.steps;
            is_index = omega (arith, rest.is_index);
            is_before = rest.is_before;
            is_after = rest.is_after;
          }
    ]

abbrev pub Splits : List ℕ → Option ℕ → Option ℕ → ℕ → Type 0
Splits ids before after index =
    (last_id (take index ids) ≡ before) × (head_id (drop index ids) ≡ after)

pub placement_index-Splits :
    (ids : List ℕ) (before after : Option ℕ) (index : ℕ)
    → placement_index ids before after ≡ ok index
    → Splits ids before after index
unfolding placement_index between take drop
placement_index-Splits [] none none index h =
    let z : index ≡ 0 = ground (arith, h) in rw (z) (refl, refl)
placement_index-Splits (x ∷ xs) none none index h = absurd (ground (arith, h))
placement_index-Splits [] none (some a) index h = absurd (ground (arith, h))
placement_index-Splits (x ∷ xs) none (some a) index h = elim (Bool-cases (x == a)) [
  | inl t ↦ let z : index ≡ 0 = ground (arith, t, h) in rw (z) (refl, ap some (==→eq x a t))
  | inr f ↦ absurd (ground (arith, f, h))
]
placement_index-Splits ids (some b) none index h = elim (Bool-cases (last_is b ids)) [
  | inl t ↦
      let z : index ≡ count_ids ids = ground (arith, t, h) in
      rw (z, take-all ids, drop-all ids) (last_is-last b ids t, refl)
  | inr f ↦ absurd (ground (arith, f, h))
]
placement_index-Splits [] (some b) (some a) index h = absurd (ground (arith, h))
placement_index-Splits (x ∷ xs) (some b) (some a) index h =
    let s = adjacent-Between b a x xs 1 index h in
    let z : index ≡ suc s.steps = omega (arith, s.is_index) in rw (z) (s.is_before, s.is_after)
