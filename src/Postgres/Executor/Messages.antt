-- ===== src/Postgres/Executor/Messages.antt =====
-- The error messages of the database, without the values that they quote.
-- infrastructure/persistence/postgres/query_executor_adapter.py
pub mod Masks
use sql_gateway_poc.Base.{
  ℕ, zero, suc, ◌+◌, Bool, true, false, not, ◌&&◌, ◌||◌, Option, none, some, List, [], ◌∷◌, ◌++◌,
  map, ◌==◌, if◌then◌else◌, any, take,
}
use sql_gateway_poc.Base.Text.{Text, codes, strip}

-- _MAX_ERROR_MESSAGE_LENGTH
abbrev pub max_error_message_length : ℕ
max_error_message_length = 200

-- A match of =\([^)]*\) starts with `c`, before `s`.
starts_value : ℕ → Text → Bool
unfolding any
starts_value c [] = false
starts_value c (d ∷ s) = (c == b'=') && (d == b'(') && any (λ e. e == b')') s

-- _CONSTRAINT_VALUE_LEAK_PATTERN.sub("=(…)", s); within a match, the text up to its end is passed
-- over.
unfoldable pub mask_values : Bool → Text → Text
unfolding starts_value
mask_values within [] = []
mask_values true (c ∷ s) =
    let outside = mask_values false s in
    let inside = mask_values true s in if c == b')' then outside else inside
mask_values false (c ∷ s) =
    let outside = mask_values false s in
    let inside = mask_values true s in
    if starts_value c s then b'=' ∷ b'(' ∷ 8230 ∷ b')' ∷ inside else c ∷ outside

-- The first of two that is a match.
abbrev or_else : Option ℕ → Option ℕ → Option ℕ
or_else none second = second
or_else (some n) second = some n

abbrev longer_by : ℕ → Option ℕ → Option ℕ
longer_by k none = none
longer_by k (some n) = some (k + n)

-- How many characters (?:\\.|(?!\1).)*\1 matches at the start of the text, where \1 is `quote`, in
-- the order in which re backtracks: an escaped pair, then one other character, then the quote.
unfoldable pub quoted : ℕ → Text → Option ℕ
quoted quote [] = none
quoted quote (c ∷ []) = if c == quote then some 1 else none
quoted quote (c ∷ d ∷ s) =
    let after_pair = quoted quote s in
    let after_one = quoted quote (d ∷ s) in
    or_else (if (c == b'\\') && not (d == 10) then longer_by 2 after_pair else none) (
      or_else (if not (c == quote) && not (c == 10) then longer_by 1 after_one else none)
        (if c == quote then some 1 else none))

-- _INLINE_QUOTED_LITERAL_PATTERN.sub("'…'", s), after `skipped` characters that are in a match.
unfoldable pub mask_quotes : ℕ → Text → Text
unfolding quoted
mask_quotes skipped [] = []
mask_quotes (suc skipped) (c ∷ s) = mask_quotes skipped s
mask_quotes zero (c ∷ s) =
    if (c == b'\'') || (c == b'"')
    then elim (quoted c s) [
      | none ↦ c ∷ mask_quotes 0 s
      | some n ↦ b'\'' ∷ 8230 ∷ b'\'' ∷ mask_quotes n s
    ]
    else c ∷ mask_quotes 0 s

-- _sanitize_error_message
unfoldable pub sanitize_error_message : Text → Text
sanitize_error_message [] = []
sanitize_error_message (c ∷ message) =
    take max_error_message_length (strip (mask_quotes 0 (mask_values false (c ∷ message))))
