-- ===== src/Issues/Keys/RoundTrip.antt =====
-- issuekey.go: ParseIssueKey on what FormatIssueKey prints.
use agent_board.Prelude.{
  ℕ, suc, ◌+◌, ◌%◌, ◌≤◌, ◌<◌, ◌≡◌, refl, sym, ap, ◌∙◌, true, false, Bool-cases, Option-cases,
  Option, none, some, [], ◌∷◌, ◌++◌, ◌==◌, ==→eq, length, inl, inr, arith,
}
use mathlib.Core.List.{reverse, reverse-append, reverse-reverse}
use agent_board.Prelude.Rows.{any}
use agent_board.Prelude.Text.{Text, trim_space, trim_left, is_space}
use agent_board.Prelude.Lists.{take, drop, length-append, append_assoc}
use agent_board.Prelude.Decimal.{decimal, decimal-last, atoi_positive, atoi_positive-decimal}
use agent_board.Issues.Keys.{
  parsed, format_issue_key, is_upper, is_upper_or_digit, all_upper_or_digit, valid_issue_prefix,
  index_byte, parse_at_dash, parse_issue_key,
}

-- A text with no white space at either end is not trimmed.
trim_space-kept :
    (key s s' : Text) (c d : ℕ)
    → key ≡ c ∷ s
    → key ≡ s' ++ d ∷ []
    → is_space c ≡ false
    → is_space d ≡ false
    → trim_space key ≡ key
unfolding trim_space trim_left
trim_space-kept key s s' c d starts ends t u =
    let kept : (x : ℕ) → (xs : Text) → is_space x ≡ false → trim_left (x ∷ xs) ≡ x ∷ xs =
      λ x xs v. rw (v) refl in
    let left : trim_left key ≡ key = ap trim_left starts ∙ kept c s t ∙ sym starts in
    let turned : reverse key ≡ d ∷ reverse s' = ap reverse ends ∙ reverse-append s' (d ∷ []) in
    let right : trim_left (reverse key) ≡ reverse key =
      ap trim_left turned ∙ kept d (reverse s') u ∙ sym turned in
    ap (λ k. reverse (trim_left (reverse k))) left ∙ ap reverse right ∙ reverse-reverse key

take-length : (p s : Text) → take (length p) (p ++ s) ≡ p
unfolding take
take-length [] s = refl
take-length (c ∷ p) s = ap (λ x. c ∷ x) (take-length p s)

drop_past : (p : Text) (c : ℕ) (s : Text) → drop (suc (length p)) (p ++ c ∷ s) ≡ s
unfolding drop
drop_past [] c s = refl
drop_past (d ∷ p) c s = drop_past p c s

drop-length : (p : Text) (c : ℕ) (s : Text) → drop (length p + 1) (p ++ c ∷ s) ≡ s
drop-length p c s =
    let n : length p + 1 ≡ suc (length p) = omega arith in
    ap (λ k. drop k (p ++ c ∷ s)) n ∙ drop_past p c s

index_byte-first :
    (b : ℕ) (p s : Text) → any (λ c. c == b) p ≡ false → index_byte b (p ++ b ∷ s) ≡ some (length p)
unfolding index_byte any
index_byte-first b [] s n = ground arith
index_byte-first b (c ∷ p) s n =
    let other : (c == b) ≡ false = ground (arith, n) in
    let ih = index_byte-first b p s (ground (arith, n)) in rw (other, ih) (ap some (omega arith))

any-all_upper_or_digit : (s : Text) → all_upper_or_digit s ≡ true → any (λ c. c == 45) s ≡ false
unfolding any all_upper_or_digit
any-all_upper_or_digit [] h = refl
any-all_upper_or_digit (c ∷ s) h = elim (Bool-cases (is_upper_or_digit c)) [
  | inl t ↦ ground (arith, t, any-all_upper_or_digit s (ground (arith, h, t)))
  | inr t ↦ absurd (ground (arith, h, t))
]

-- A valid prefix starts with a letter and has no dash.
valid_issue_prefix-starts :
    (p : Text)
    → valid_issue_prefix p ≡ true
    → (c : ℕ) × (s : Text) × (p ≡ c ∷ s) × (is_upper c ≡ true) × (all_upper_or_digit s ≡ true)
unfolding valid_issue_prefix
valid_issue_prefix-starts [] h = absurd (ground (arith, h))
valid_issue_prefix-starts (c ∷ s) h = (c, s, refl, ground (arith, h), ground (arith, h))

parse_at_dash-formatted :
    (p t : Text) (n : ℕ)
    → valid_issue_prefix p ≡ true
    → 0 < length p
    → 0 < length t
    → atoi_positive t ≡ some n
    → parse_at_dash (p ++ 45 ∷ t) (some (length p)) ≡ parsed p n
parse_at_dash-formatted p t n v some_prefix some_number e =
    let no_start : (length p == 0) ≡ false = ground (arith, some_prefix) in
    let no_end : (length p + 1 == length (p ++ 45 ∷ t)) ≡ false =
      ground (arith, some_number, length-append p (45 ∷ t)) in
    rw (no_start, no_end, take-length p (45 ∷ t), v, drop-length p 45 t, e) refl

-- A key that FormatIssueKey prints for a valid prefix and a positive number of an int is read back
-- by ParseIssueKey as that prefix and that number.
pub parse_issue_key-format_issue_key :
    (prefix : Text) (number : ℕ)
    → valid_issue_prefix prefix ≡ true
    → 1 ≤ number
    → number < 9223372036854775808
    → parse_issue_key (format_issue_key prefix number) ≡ parsed prefix number
unfolding parse_issue_key format_issue_key any
parse_issue_key-format_issue_key p n v low high =
    let (c, s, starts, upper, rest) = valid_issue_prefix-starts p v in
    let (t, ends) = decimal-last n in
    let key : Text = p ++ 45 ∷ decimal n in
    let trimmed : trim_space key ≡ key =
      trim_space-kept key (s ++ 45 ∷ decimal n) (p ++ 45 ∷ t) c (48 + n % 10)
        (ap (λ x. x ++ 45 ∷ decimal n) starts)
        (ap (λ x. p ++ 45 ∷ x) ends ∙ sym (append_assoc p (45 ∷ t) ((48 + n % 10) ∷ [])))
        (ground (arith, upper)) (ground arith) in
    let no_dash : any (λ x. x == 45) p ≡ false =
      ap (any (λ x. x == 45)) starts ∙ ground (arith, upper, any-all_upper_or_digit s rest) in
    rw (trimmed, index_byte-first 45 p (decimal n) no_dash)
      (parse_at_dash-formatted p (decimal n) n v (omega (arith, ap length starts))
        (omega (arith, ap length ends, length-append t ((48 + n % 10) ∷ [])))
        (atoi_positive-decimal n low high))

index_byte-splits :
    (b : ℕ) (s : Text) (i : ℕ) → index_byte b s ≡ some i → s ≡ take i s ++ b ∷ drop (suc i) s
unfolding index_byte take drop
index_byte-splits b [] i e = absurd (ground (arith, e))
index_byte-splits b (c ∷ s) i e = elim (Bool-cases (c == b)) [
  | inl t ↦ let z : i ≡ 0 = ground (arith, e, t) in rw (z) (ap (λ x. x ∷ s) (==→eq c b t))
  | inr t ↦ elim (Option-cases (index_byte b s)) [
    | inl q ↦ absurd (ground (arith, e, t, q))
    | inr (k, q) ↦
        let z : i ≡ suc k = ground (arith, e, t, q) in
        rw (z) (ap (λ x. c ∷ x) (index_byte-splits b s k q))
  ]
]

-- What a key that ParseIssueKey accepts shows: without the white space around it, it is the prefix,
-- a dash, and a text that reads as the number.
pub record IsKey (key prefix : Text) (number : ℕ) : Type 0 where
  pub text : Text
  pub is_key : trim_space key ≡ prefix ++ 45 ∷ text
  pub is_valid : valid_issue_prefix prefix ≡ true
  pub is_number : atoi_positive text ≡ some number

parse_at_dash-IsKey :
    (key : Text) (o : Option ℕ) (p : Text) (n : ℕ)
    → index_byte 45 (trim_space key) ≡ o
    → parse_at_dash (trim_space key) o ≡ parsed p n
    → IsKey key p n
parse_at_dash-IsKey key none p n q e = absurd (ground (arith, e))
parse_at_dash-IsKey key (some i) p n q e =
    elim (Option-cases (atoi_positive (drop (i + 1) (trim_space key)))) [
      | inl z ↦ absurd (ground (arith, e, z))
      | inr (k, z) ↦
          let same_prefix : take i (trim_space key) ≡ p = ground (arith, e, z) in
          let same_number : k ≡ n = ground (arith, e, z) in
          let next : suc i ≡ i + 1 = omega arith in
          record {
            text = drop (i + 1) (trim_space key);
            is_key =
                index_byte-splits 45 (trim_space key) i q
                ∙ ap (λ x. x ++ 45 ∷ drop (suc i) (trim_space key)) same_prefix
                ∙ ap (λ x. p ++ 45 ∷ drop x (trim_space key)) next;
            is_valid = ground (arith, e, z);
            is_number = z ∙ ap some same_number;
          }
    ]

-- Whatever ParseIssueKey accepts is, without the white space around it, a valid prefix, a dash and
-- a text that reads as the number that it returns.
pub parse_issue_key-IsKey :
    (key prefix : Text) (number : ℕ)
    → parse_issue_key key ≡ parsed prefix number
    → IsKey key prefix number
unfolding parse_issue_key
parse_issue_key-IsKey key p n e =
    parse_at_dash-IsKey key (index_byte 45 (trim_space key)) p n refl e
