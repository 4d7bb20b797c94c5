-- ===== src/Sql/Sensitive.antt =====
-- The regular expression for the names of sensitive columns.
-- infrastructure/persistence/sql/query_scrubber_adapter.py, DEFAULT_SENSITIVE_COLUMN_PATTERN
pub mod Language
pub mod Expansions
pub mod Words
use sql_gateway_poc.Base.{
  ℕ, ◌+◌, Bool, true, false, not, ◌&&◌, ◌||◌, List, [], ◌∷◌, ◌++◌, map, String, leb, ◌==◌,
  if◌then◌else◌, any,
}
use sql_gateway_poc.Base.Text.{Text, codes, is_empty}

-- A character, or a character of a class that may be left out (`[_-]?`).
pub data Atom : Type 0 where
  one : ℕ → Atom
  optional : List ℕ → Atom

abbrev pub Pattern : Type 0
Pattern = List Atom

unfoldable pub word : String → Pattern
unfolding codes
word s = map one (codes s)

abbrev separator : Pattern
separator = optional (b'_' ∷ b'-' ∷ []) ∷ []

-- The alternatives of the pattern.
abbrev pub sensitive_alternatives : List Pattern
sensitive_alternatives =
    word "password"
    ∷ word "passwd"
    ∷ word "secret"
    ∷ word "token"
    ∷ (word "api" ++ separator ++ word "key")
    ∷ (word "private" ++ separator ++ word "key")
    ∷ word "auth"
    ∷ word "session"
    ∷ word "credential"
    ∷ word "hash"
    ∷ word "salt"
    ∷ word "pin"
    ∷ word "cvv"
    ∷ word "ssn"
    ∷ []

-- re.IGNORECASE: what a character matches as. Beside the capitals there are four characters that
-- match an ASCII letter: dotted I, dotless i, the Kelvin sign and the long s.
unfoldable pub fold_case : ℕ → ℕ
fold_case c =
    if leb b'A' c && leb c b'Z'
    then c + 32
    else if (c == 0x130) || (c == 0x131)
    then b'i'
    else if c == 0x212a
    then b'k'
    else if c == 0x17f
    then b's'
    else c

-- The pattern matches at the start of the text.
unfoldable pub matches_here : Pattern → Text → Bool
unfolding any
matches_here [] s = true
matches_here (one a ∷ p) [] = false
matches_here (one a ∷ p) (c ∷ s) = (fold_case c == a) && matches_here p s
matches_here (optional cs ∷ p) [] = matches_here p []
matches_here (optional cs ∷ p) (c ∷ s) =
    (any (λ a. fold_case c == a) cs && matches_here p s) || matches_here p (c ∷ s)

-- pattern.search(text), as a Boolean
unfoldable pub search_any : List Pattern → Text → Bool
unfolding any matches_here
search_any patterns [] = any (λ p. matches_here p []) patterns
search_any patterns (c ∷ s) = any (λ p. matches_here p (c ∷ s)) patterns || search_any patterns s

-- SqlQueryScrubberAdapter._is_sensitive_column_name
unfoldable pub is_sensitive_column_name : Text → Bool
unfolding search_any
is_sensitive_column_name column_name =
    if is_empty column_name then false else search_any sensitive_alternatives column_name
