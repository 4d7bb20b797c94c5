-- ===== src/Base/Text.antt =====
-- Python's `str` as the list of its code points, with the methods that the gateway calls.
use Prim.Native.Nat.{ℕ, ◌+◌}
use Prim.Native.Char.{code}
use Prim.Native.String.{String}
use mathlib.Core.Path.{◌≡◌, refl}
use mathlib.Core.Logic.{◌↔◌, ◌⊎◌, inl, inr}
use mathlib.Core.Bool.{Bool, true, false, ◌&&◌, ◌||◌}
use mathlib.Core.List.{List, [], ◌∷◌, ◌++◌, map}
use native.Mathlib.Omega.{arith}
use sql_gateway_poc.Base.Tests.{leb, ◌==◌, if◌then◌else◌, Bool-cases}
use sql_gateway_poc.Base.Lists.{any, All, All-append}

abbrev pub Text : Type 0
Text = List ℕ

unfoldable pub codes : String → Text
codes String.[] = []
codes (String.◌∷◌ c s) = code c ∷ codes s

-- str.isspace of one character: the separators that `strip` and `split` remove.
unfoldable pub is_space : ℕ → Bool
is_space c =
    (leb 9 c && leb c 13)
    || (leb 28 c && leb c 32)
    || (c == 0x85)
    || (c == 0xa0)
    || (c == 0x1680)
    || (leb 0x2000 c && leb c 0x200a)
    || (c == 0x2028)
    || (c == 0x2029)
    || (c == 0x202f)
    || (c == 0x205f)
    || (c == 0x3000)

-- The characters at which `splitlines` ends a line.
unfoldable pub is_line_break : ℕ → Bool
is_line_break c =
    (leb 10 c && leb c 13)
    || (leb 28 c && leb c 30)
    || (c == 0x85)
    || (c == 0x2028)
    || (c == 0x2029)

abbrev pub is_empty : Text → Bool
is_empty [] = true
is_empty (c ∷ s) = false

lstrip : Text → Text
lstrip [] = []
lstrip (c ∷ s) = if is_space c then lstrip s else c ∷ s

rstrip : Text → Text
rstrip [] = []
rstrip (c ∷ s) = let rest = rstrip s in if is_space c && is_empty rest then [] else c ∷ rest

-- s.strip()
unfoldable pub strip : Text → Text
unfolding lstrip rstrip is_space
strip s = rstrip (lstrip s)

-- s.splitlines()[0] if s else ""
unfoldable pub first_line : Text → Text
unfolding is_line_break
first_line [] = []
first_line (c ∷ s) = if is_line_break c then [] else c ∷ first_line s

-- Puts `c` in front of the first word of `words`, if the text behind it starts with that word.
abbrev attach : ℕ → Bool → List Text → List Text
attach c false words = (c ∷ []) ∷ words
attach c true [] = (c ∷ []) ∷ []
attach c true (w ∷ words) = (c ∷ w) ∷ words

abbrev starts_in_word : Text → Bool
starts_in_word [] = false
starts_in_word (c ∷ s) = if is_space c then false else true

-- s.split()
unfoldable pub split : Text → List Text
unfolding is_space
split [] = []
split (c ∷ s) = let rest = split s in if is_space c then rest else attach c (starts_in_word s) rest

-- " ".join(words)
unfoldable pub join_by_space : List Text → Text
join_by_space [] = []
join_by_space (w ∷ []) = w
join_by_space (w ∷ v ∷ words) = w ++ 32 ∷ join_by_space (v ∷ words)

-- s.lower(), exact on every text whose lower case is ASCII: the capitals and the Kelvin sign are
-- the characters that it maps to ASCII.
unfoldable pub lower : Text → Text
lower = map (λ c. if leb b'A' c && leb c b'Z' then c + 32 else if c == 0x212a then b'k' else c)

unfoldable pub text_eq : Text → Text → Bool
text_eq [] [] = true
text_eq (c ∷ s) (d ∷ t) = (c == d) && text_eq s t
text_eq _ _ = false

pub text_eq_iff : (s t : Text) → (text_eq s t ≡ true) ↔ (s ≡ t)
unfolding text_eq
text_eq_iff [] [] = (λ _. refl, λ _. refl)
text_eq_iff [] (d ∷ t) = (λ h. cc, λ h. cc)
text_eq_iff (c ∷ s) [] = (λ h. cc, λ h. cc)
text_eq_iff (c ∷ s) (d ∷ t) =
    (λ h. ground (arith, (text_eq_iff s t).0), λ h. ground (arith, (text_eq_iff s t).1))

-- text in texts
unfoldable pub is_member : Text → List Text → Bool
unfolding any text_eq
is_member s = any (λ t. text_eq s t)

abbrev pub IsBlank : Text → Type 0
IsBlank = All (λ c. is_space c ≡ true)

rstrip-eq-nil : (s : Text) → (rstrip s ≡ []) ↔ IsBlank s
unfolding rstrip
rstrip-eq-nil [] = (λ _. tt, λ _. refl)
rstrip-eq-nil (c ∷ s) =
    (λ h. ground (arith, (rstrip-eq-nil s).0), λ h. ground (arith, (rstrip-eq-nil s).1))

IsBlank-lstrip : (s : Text) → IsBlank (lstrip s) ↔ IsBlank s
unfolding lstrip
IsBlank-lstrip [] = (λ h. h, λ h. h)
IsBlank-lstrip (c ∷ s) =
    (λ h. ground (arith, (IsBlank-lstrip s).0), λ h. ground (arith, (IsBlank-lstrip s).1))

-- A text has nothing left after stripping exactly if it is blank.
pub strip-eq-nil : (s : Text) → (strip s ≡ []) ↔ IsBlank s
unfolding strip
strip-eq-nil s = (
  λ h. (IsBlank-lstrip s).0 ((rstrip-eq-nil (lstrip s)).0 h),
  λ h. (rstrip-eq-nil (lstrip s)).1 ((IsBlank-lstrip s).1 h),
)

-- A text whose only white space is U+0020: it has no line break and no tab.
abbrev pub IsOneLine : Text → Type 0
IsOneLine = All (λ c. (is_space c ≡ false) ⊎ (c ≡ 32))

abbrev IsWord : Text → Type 0
IsWord = All (λ c. is_space c ≡ false)

attach-IsWord :
    (c : ℕ) (joined : Bool) (words : List Text)
    → is_space c ≡ false
    → All IsWord words
    → All IsWord (attach c joined words)
attach-IsWord c false words hc h = ((hc, tt), h)
attach-IsWord c true [] hc h = ((hc, tt), tt)
attach-IsWord c true (w ∷ words) hc h = ((hc, h.0), h.1)

split-IsWord : (s : Text) → All IsWord (split s)
unfolding split
split-IsWord [] = tt
split-IsWord (c ∷ s) = elim (Bool-cases (is_space c)) [
  | inl e ↦ rw e (split-IsWord s)
  | inr e ↦ rw e (attach-IsWord c (starts_in_word s) (split s) e (split-IsWord s))
]

IsWord-IsOneLine : (w : Text) → IsWord w → IsOneLine w
IsWord-IsOneLine [] h = tt
IsWord-IsOneLine (c ∷ w) h = (inl h.0, IsWord-IsOneLine w h.1)

join_by_space-IsOneLine : (words : List Text) → All IsWord words → IsOneLine (join_by_space words)
unfolding join_by_space
join_by_space-IsOneLine [] h = tt
join_by_space-IsOneLine (w ∷ []) h = IsWord-IsOneLine w h.0
join_by_space-IsOneLine (w ∷ v ∷ words) h =
    All-append (λ c. (is_space c ≡ false) ⊎ (c ≡ 32)) w (32 ∷ join_by_space (v ∷ words))
      (IsWord-IsOneLine w h.0) (inr refl, join_by_space-IsOneLine (v ∷ words) h.1)

pub collapse-IsOneLine : (s : Text) → IsOneLine (join_by_space (split s))
collapse-IsOneLine s = join_by_space-IsOneLine (split s) (split-IsWord s)
