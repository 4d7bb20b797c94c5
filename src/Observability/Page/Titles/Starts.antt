-- ===== src/Observability/Page/Titles/Starts.antt =====
-- How a title begins, and how long it can be without a keyword.
use mathlib.Core.List.{append-nil}
use sql_gateway_poc.Base.{
  sym, ◌≤◌, false, Option, none, some, [], ◌∷◌, ◌++◌, ◌≡◌, ◌⊎◌, refl, arith, leb, Bool-cases, inl,
  inr, length, take, length-append, length-take,
}
use sql_gateway_poc.Base.Text.{Text, codes, is_empty}
use sql_gateway_poc.Observability.Page.Patterns.{trim, is_stacked}
use sql_gateway_poc.Observability.Page.Titles.{
  SqlKeyword, select, insert, update, delete, drop, alter, create, truncate, vacuum, with_,
  keyword_text, Finding, title, table, called_title, star_title, select_from, select_title,
  by_keyword, settle_title, titled, shorten, derive_title,
}

-- The text begins with the keyword.
abbrev pub Begins : SqlKeyword → Text → Type 0
Begins keyword t = (rest : Text) × (t ≡ codes (keyword_text keyword) ++ rest)

abbrev Suits : SqlKeyword → Finding → Type 0
Suits keyword (title t) = Begins keyword t
Suits keyword (table t) = Unit

called_title-Suits : (o : Option Text) → Suits select (called_title o)
unfolding called_title codes
called_title-Suits none = tt
called_title-Suits (some called) = (32 ∷ (called ++ codes "(…)"), refl)

star_title-Suits : (from : Text) (o : Option {0} Unit) → Suits select (star_title from o)
unfolding star_title codes
star_title-Suits from none = tt
star_title-Suits from (some found) = (codes " * FROM " ++ from, refl)

select_from-Suits : (trimmed from : Text) → Suits select (select_from trimmed from)
unfolding select_from
select_from-Suits trimmed [] = called_title-Suits _
select_from-Suits trimmed (c ∷ from) = star_title-Suits (c ∷ from) _

select_title-Suits : (trimmed : Text) (o : Option Text) → Suits select (select_title trimmed o)
unfolding select_title codes
select_title-Suits trimmed none = select_from-Suits trimmed _
select_title-Suits trimmed (some into) = (codes " INTO " ++ into, refl)

by_keyword-Suits :
    (keyword : SqlKeyword) (trimmed : Text) → Suits keyword (by_keyword keyword trimmed)
unfolding by_keyword codes
by_keyword-Suits select trimmed = select_title-Suits trimmed _
by_keyword-Suits insert trimmed = tt
by_keyword-Suits update trimmed = tt
by_keyword-Suits delete trimmed = tt
by_keyword-Suits drop trimmed = tt
by_keyword-Suits alter trimmed = tt
by_keyword-Suits create trimmed = tt
by_keyword-Suits truncate trimmed = tt
by_keyword-Suits vacuum trimmed = tt
by_keyword-Suits with_ trimmed = (codes " (CTE)", refl)

settle_title-Begins :
    (keyword : SqlKeyword) (trimmed : Text) (f : Finding)
    → Suits keyword f
    → Begins keyword (settle_title keyword trimmed f)
unfolding settle_title
settle_title-Begins keyword trimmed (title t) h = h
settle_title-Begins keyword trimmed (table t) h = elim (Bool-cases (is_stacked trimmed)) [
  | inl stacked ↦ rw stacked (codes " + stacked stmt", refl)
  | inr single ↦ elim (Bool-cases (is_empty t)) [
    | inl e ↦ rw (single, e) ([], sym (append-nil (codes (keyword_text keyword))))
    | inr e ↦ rw (single, e) (32 ∷ t, refl)
  ]
]

-- At most 48 units, and not empty.
abbrev pub IsShort : Text → Type 0
IsShort t = (length t ≤ 48) × (is_empty t ≡ false)

shorten-IsShort : (trimmed : Text) → is_empty trimmed ≡ false → IsShort (shorten trimmed)
shorten-IsShort trimmed h = elim (Bool-cases (leb (length trimmed) 48)) [
  | inl fits ↦ rw fits (ground (arith, fits), h)
  | inr long ↦ rw long (
    omega (arith, length-append (take 45 trimmed) (0x2026 ∷ []), length-take 45 trimmed),
    not_empty (take 45 trimmed),
  )
]
  where
    not_empty : (s : Text) → is_empty (s ++ 0x2026 ∷ []) ≡ false
    not_empty [] = refl
    not_empty (c ∷ s) = refl

-- A title begins with one of the ten keywords, or is short.
abbrev pub IsTitle : Text → Type 0
IsTitle t = ((keyword : SqlKeyword) × Begins keyword t) ⊎ IsShort t

titled-IsTitle :
    (trimmed : Text) (o : Option SqlKeyword) → is_empty trimmed ≡ false → IsTitle (titled trimmed o)
unfolding titled
titled-IsTitle trimmed none h = inr (shorten-IsShort trimmed h)
titled-IsTitle trimmed (some keyword) h =
    inl (keyword, settle_title-Begins keyword trimmed _ (by_keyword-Suits keyword trimmed))

-- The title of a card, for each query that is a text, begins with one of the ten keywords, or has
-- at least one and at most 48 code units.
pub derive_title-IsTitle : (query : Text) → IsTitle (derive_title query)
unfolding derive_title codes
derive_title-IsTitle query = elim (Bool-cases (is_empty (trim query))) [
  | inl blank ↦ simp blank (inr (omega arith, refl))
  | inr text ↦ simp text (titled-IsTitle (trim query) _ text)
]
