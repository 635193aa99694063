-- ===== src/Issues/Keys.antt =====
-- issuekey.go: the public key of an issue, PREFIX-NUMBER. A text is its code points; where the code
-- counts bytes, the texts that pass its tests have one byte per code point.
pub mod RoundTrip
use agent_board.Prelude.{
  ℕ, ◌+◌, Bool, true, false, not, ◌&&◌, ◌||◌, Option, none, some, List, [], ◌∷◌, ◌++◌, ◌==◌, ltb,
  leb, if◌then◌else◌, length,
}
use agent_board.Prelude.Text.{Text, trim_space}
use agent_board.Prelude.Lists.{take, drop}
use agent_board.Prelude.Decimal.{decimal, atoi_positive}

-- The three errors of ParseIssueKey, or the prefix and the number.
pub data ParsedKey : Type 0 where
  invalid_key invalid_key_prefix invalid_key_number : ParsedKey
  parsed : (prefix : Text) (number : ℕ) → ParsedKey

-- FormatIssueKey, for a number that is not negative.
unfoldable pub format_issue_key : Text → ℕ → Text
format_issue_key prefix number = prefix ++ 45 ∷ decimal number

abbrev pub is_upper : ℕ → Bool
is_upper c = not (ltb c 65 || ltb 90 c)

abbrev pub is_upper_or_digit : ℕ → Bool
is_upper_or_digit c = not ((ltb c 65 || ltb 90 c) && (ltb c 48 || ltb 57 c))

unfoldable pub all_upper_or_digit : Text → Bool
all_upper_or_digit [] = true
all_upper_or_digit (c ∷ s) =
    let rest = all_upper_or_digit s in if is_upper_or_digit c then rest else false

-- ValidIssuePrefix
unfoldable pub valid_issue_prefix : Text → Bool
unfolding all_upper_or_digit
valid_issue_prefix [] = false
valid_issue_prefix (c ∷ s) =
    if ltb (length (c ∷ s)) 2 || ltb 10 (length (c ∷ s))
    then false
    else (if is_upper c then all_upper_or_digit s else false)

-- strings.IndexByte
unfoldable pub index_byte : ℕ → Text → Option ℕ
index_byte b [] = none
index_byte b (c ∷ s) =
    if c == b then some 0 else (elim (index_byte b s) [ none ↦ none | some i ↦ some (i + 1) ])

abbrev pub parse_number : Text → Option ℕ → ParsedKey
parse_number prefix none = invalid_key_number
parse_number prefix (some number) = parsed prefix number

abbrev pub parse_at_dash : Text → Option ℕ → ParsedKey
parse_at_dash key none = invalid_key
parse_at_dash key (some dash) =
    if dash == 0 || dash + 1 == length key
    then invalid_key
    else (if valid_issue_prefix (take dash key)
        then parse_number (take dash key) (atoi_positive (drop (dash + 1) key))
        else invalid_key_prefix)

-- ParseIssueKey
unfoldable pub parse_issue_key : Text → ParsedKey
unfolding valid_issue_prefix index_byte
parse_issue_key key = parse_at_dash (trim_space key) (index_byte 45 (trim_space key))

-- ValidIssueKey
unfoldable pub valid_issue_key : Text → Bool
unfolding parse_issue_key
valid_issue_key key = elim (parse_issue_key key) [
  | invalid_key ↦ false
  | invalid_key_prefix ↦ false
  | invalid_key_number ↦ false
  | parsed prefix number ↦ true
]
