-- ===== src/Prelude/Decimal.antt =====
-- Decimal numerals: `%d` of fmt and strconv.Atoi, for an int of 64 bits.
use Prim.Native.Nat.{ℕ, zero, suc, ◌+◌, ◌-◌, ◌*◌, ◌/◌, ◌%◌, ◌≤◌, ◌<◌}
use mathlib.Core.Path.{◌≡◌, refl, ap, ◌∙◌}
use mathlib.Core.Bool.{Bool, false, ◌&&◌}
use mathlib.Core.Logic.{inl, inr}
use mathlib.Core.Option.{Option, none, some}
use mathlib.Core.List.{[], ◌∷◌, ◌++◌}
use native.Mathlib.Omega.{arith}
use agent_board.Prelude.Lists.{length-append}
use agent_board.Prelude.Tests.{length, ltb→lt, if◌then◌else◌, ◌==◌, leb, ltb, Bool-cases}
use agent_board.Prelude.Text.{Text}

abbrev pub is_digit : ℕ → Bool
is_digit c = leb 48 c && leb c 57

unfoldable pub digits : ℕ → ℕ → Text
digits zero n = []
digits (suc fuel) n =
    let rest = digits fuel (n / 10) in
    if ltb n 10 then (48 + n) ∷ [] else rest ++ (48 + n % 10) ∷ []

-- `%d` of a number that is not negative; an int has at most 19 digits.
unfoldable pub decimal : ℕ → Text
unfolding digits
decimal n = digits 20 n

-- The value of digits, after those that make `value`.
unfoldable pub digits_value : ℕ → Text → Option ℕ
digits_value value [] = some value
digits_value value (c ∷ s) =
    let rest = digits_value (value * 10 + (c - 48)) s in if is_digit c then rest else none

abbrev pub positive : Option ℕ → Option ℕ
positive none = none
positive (some n) = if leb 1 n && ltb n 9223372036854775808 then some n else none

-- strconv.Atoi, where the caller refuses what is below 1 as it refuses an error: a sign, and digits
-- whose value fits.
unfoldable pub atoi_positive : Text → Option ℕ
unfolding digits_value
atoi_positive [] = none
atoi_positive (c ∷ []) = positive (digits_value 0 (c ∷ []))
atoi_positive (c ∷ d ∷ s) =
    if c == 45
    then none
    else (if c == 43
        then positive (digits_value 0 (d ∷ s))
        else positive (digits_value 0 (c ∷ d ∷ s)))

unfoldable tens : ℕ → ℕ
tens zero = 1
tens (suc k) = 10 * tens k

digits_value-snoc :
    (v : ℕ) (s : Text) (d : ℕ) {w : ℕ}
    → d < 10
    → digits_value v s ≡ some w
    → digits_value v (s ++ (48 + d) ∷ []) ≡ some (w * 10 + d)
unfolding digits_value
digits_value-snoc v [] d {w} b e = ground (arith, b, e)
digits_value-snoc v (c ∷ s) d {w} b e = elim (Bool-cases (is_digit c)) [
  | inl t ↦ rw (t) (digits_value-snoc (v * 10 + (c - 48)) s d {w = w} b (ground (arith, e, t)))
  | inr t ↦ absurd (ground (arith, e, t))
]

digits_value-digits :
    (fuel n : ℕ) → n < tens fuel → 0 < fuel → digits_value 0 (digits fuel n) ≡ some n
unfolding digits digits_value tens
digits_value-digits zero n b z = absurd (omega (arith, z))
digits_value-digits (suc zero) n b z = ground (arith, b)
digits_value-digits (suc (suc fuel)) n b z = elim (Bool-cases (ltb n 10)) [
  | inl t ↦ ground (arith, t)
  | inr t ↦
      let ih = digits_value-digits (suc fuel) (n / 10) (omega (arith, b)) (omega arith) in
      let e = digits_value-snoc 0 (digits (suc fuel) (n / 10)) (n % 10) (omega arith) ih in
      rw (t) (e ∙ ap some (omega arith))
]

pub decimal-last : (n : ℕ) → (s : Text) × (decimal n ≡ s ++ (48 + n % 10) ∷ [])
unfolding decimal digits
decimal-last n = elim (Bool-cases (ltb n 10)) [
  | inl t ↦ ([], rw (t) (ap (λ c. (48 + c) ∷ []) (omega (arith, ltb→lt n 10 t))))
  | inr t ↦ (digits 19 (n / 10), rw (t) refl)
]

refused-some : (c : ℕ) (s : Text) (n : ℕ) → is_digit c ≡ false → digits_value 0 (c ∷ s) ≡ some n → ⊥
unfolding digits_value
refused-some c s n t e = ground (arith, t, e)

digits_value-decimal : (n : ℕ) → n < 9223372036854775808 → digits_value 0 (decimal n) ≡ some n
unfolding decimal tens
digits_value-decimal n b = digits_value-digits 20 n (omega (arith, b)) (omega arith)

-- Digits are read as their value, since none of them is a sign.
atoi_positive-value :
    (s : Text) (n : ℕ)
    → 0 < length s
    → digits_value 0 s ≡ some n
    → atoi_positive s ≡ positive (some n)
unfolding atoi_positive
atoi_positive-value [] n b e = absurd (omega (arith, b))
atoi_positive-value (c ∷ []) n b e = ap positive e
atoi_positive-value (c ∷ d ∷ s) n b e = elim (Bool-cases (is_digit c)) [
  | inl t ↦
      let minus : (c == 45) ≡ false = ground (arith, t) in
      let plus : (c == 43) ≡ false = ground (arith, t) in rw (minus, plus) (ap positive e)
  | inr t ↦ absurd (refused-some c (d ∷ s) n t e)
]

in_range : (n : ℕ) → 1 ≤ n → n < 9223372036854775808 → positive (some n) ≡ some n
in_range n low high = ground (arith, low, high)

-- Atoi reads what `%d` prints.
pub atoi_positive-decimal :
    (n : ℕ) → 1 ≤ n → n < 9223372036854775808 → atoi_positive (decimal n) ≡ some n
atoi_positive-decimal n low high =
    let last = decimal-last n in
    let long : 0 < length (decimal n) =
      omega (arith, ap length last.1, length-append last.0 ((48 + n % 10) ∷ [])) in
    atoi_positive-value (decimal n) n long (digits_value-decimal n high) ∙ in_range n low high
