-- ===== src/Observability/Page/Patterns.antt =====
-- The regular expressions that the script of the live page matches against a query. A text of the
-- script is the list of its UTF-16 code units.
-- application/controllers/http/observability/observability_http_controller.py
use mathlib.Core.List.{reverse}
use sql_gateway_poc.Base.{
  ℕ, ◌-◌, Bool, false, not, ◌&&◌, ◌||◌, Option, none, some, List, [], ◌∷◌, String, leb, ◌==◌,
  if◌then◌else◌,
}
use sql_gateway_poc.Base.Text.{Text, codes, is_empty}

-- \s, and what trim() removes.
unfoldable pub is_js_space : ℕ → Bool
is_js_space c =
    (leb 9 c && leb c 13)
    || (c == 32)
    || (c == 0xa0)
    || (c == 0x1680)
    || (leb 0x2000 c && leb c 0x200a)
    || (c == 0x2028)
    || (c == 0x2029)
    || (c == 0x202f)
    || (c == 0x205f)
    || (c == 0x3000)
    || (c == 0xfeff)

-- [a-zA-Z_] and \w
unfoldable pub is_name_start : ℕ → Bool
is_name_start c = (leb b'a' c && leb c b'z') || (leb b'A' c && leb c b'Z') || (c == b'_')

unfoldable pub is_word : ℕ → Bool
unfolding is_name_start
is_word c = is_name_start c || (leb b'0' c && leb c b'9')

-- \s*
unfoldable pub skip_spaces : Text → Text
unfolding is_js_space
skip_spaces [] = []
skip_spaces (c ∷ s) = let rest = skip_spaces s in if is_js_space c then rest else c ∷ s

-- value.trim()
unfoldable pub trim : Text → Text
unfolding skip_spaces
trim s = reverse (skip_spaces (reverse (skip_spaces s)))

-- \s+
unfoldable pub spaces : Text → Option Text
unfolding is_js_space skip_spaces
spaces [] = none
spaces (c ∷ s) = if is_js_space c then some (skip_spaces s) else none

-- A letter of a pattern, with the flag i: a capital letter, or the same letter small.
unfoldable pub same_letter : ℕ → ℕ → Bool
same_letter letter c =
    (c == letter) || (leb b'A' letter && leb letter b'Z' && (c - 32 == letter) && leb b'a' c)

-- A fixed word of a pattern: what follows it.
unfoldable pub word : Text → Text → Option Text
unfolding same_letter
word [] s = some s
word (letter ∷ letters) [] = none
word (letter ∷ letters) (c ∷ s) =
    let rest = word letters s in if same_letter letter c then rest else none

-- \w*, in front of what follows it.
unfoldable pub word_run : Text → Text
unfolding is_word
word_run [] = []
word_run (c ∷ s) = let rest = word_run s in if is_word c then c ∷ rest else []

unfoldable pub after_run : Text → Text
unfolding is_word
after_run [] = []
after_run (c ∷ s) = let rest = after_run s in if is_word c then rest else c ∷ s

-- ([a-zA-Z_]\w*)
unfoldable pub name : Text → Option Text
unfolding is_name_start word_run
name [] = none
name (c ∷ s) = if is_name_start c then some (c ∷ word_run s) else none

unfoldable pub starts_with_word : Text → Bool
unfolding is_word
starts_with_word [] = false
starts_with_word (c ∷ s) = is_word c

abbrev pub first_some : {A : Type 0} → Option A → Option A → Option A
first_some none other = other
first_some (some a) other = some a

infixl 5 ◌>>=◌
abbrev pub ◌>>=◌ : {A B : Type 0} → Option A → (A → Option B) → Option B
none >>= f = none
some a >>= f = f a

-- A pattern that begins with \b and a letter, at the first place where it matches; the first
-- argument says whether a word character stands before the text.
unfoldable pub search_at : {A : Type 0} → Bool → (Text → Option A) → Text → Option A
unfolding is_word
search_at in_word pattern_ [] = if in_word then none else pattern_ []
search_at in_word pattern_ (c ∷ s) =
    let rest = search_at (is_word c) pattern_ s in
    if in_word then rest else first_some (pattern_ (c ∷ s)) rest

-- /\bWORD\s+([a-zA-Z_]\w*)/i
unfoldable pub name_after : String → Text → Option Text
unfolding search_at word spaces name codes
name_after keyword =
    search_at false (λ s. do after ← word (codes keyword) s; next ← spaces after; name next)

abbrev pub starts_with : ℕ → Text → Option {0} Unit
starts_with c [] = none
starts_with c (d ∷ s) = if d == c then some tt else none

-- /\bSELECT\s+\*/i
unfoldable pub selects_star : Text → Option {0} Unit
unfolding search_at word spaces codes
selects_star =
    search_at false
      (λ s. do after ← word (codes "SELECT") s; next ← spaces after; starts_with b'*' next)

-- /\bSELECT\s+([a-zA-Z_]\w*)\s*\(/i
unfoldable pub selected_function : Text → Option Text
unfolding search_at word spaces name after_run skip_spaces codes
selected_function = search_at false (λ s. do
  after ← word (codes "SELECT") s
  next ← spaces after
  called ← name next
  open_ ← starts_with b'(' (skip_spaces (after_run next))
  some called)

-- The first of the words that stands here, with white space behind it: what follows the space.
unfoldable pub kind_of_object : List String → Text → Option Text
unfolding word spaces codes
kind_of_object [] s = none
kind_of_object (kind ∷ kinds) s =
    first_some (word (codes kind) s >>= spaces) (kind_of_object kinds s)

-- ^\s*WORD\s+(?:(?:KIND|...)\s+)?([a-zA-Z_]\w*), with the flag i
unfoldable pub object_after : String → List String → Text → Option Text
unfolding skip_spaces word spaces name kind_of_object codes
object_after keyword kinds s = do
  after ← word (codes keyword) (skip_spaces s)
  next ← spaces after
  first_some (kind_of_object kinds next >>= name) (name next)

-- /;\s*\S/
unfoldable pub is_stacked : Text → Bool
unfolding skip_spaces
is_stacked [] = false
is_stacked (c ∷ s) = ((c == b';') && not (is_empty (skip_spaces s))) || is_stacked s
