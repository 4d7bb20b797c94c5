-- ===== src/Observability/Page/Html/Marks.antt =====
-- The tags and attributes of a card do not depend on the texts that it shows.
use sql_gateway_poc.Base.{
  ℕ, Bool, ◌&&◌, ◌||◌, [], ◌∷◌, ◌++◌, ◌==◌, keep_if, ◌≡◌, refl, ap, arith, All, Bool-cases, inl,
  inr,
}
use sql_gateway_poc.Base.Text.{Text, is_empty}
use sql_gateway_poc.Base.Decimal.{decimal, IsDigit, decimal-IsDigit}
use sql_gateway_poc.Observability.Page.{escape_html}
use sql_gateway_poc.Observability.Page.Escaping.{IsInert, escape_html-IsInert}

-- One of < > " ', with which markup begins and ends.
abbrev pub is_mark : ℕ → Bool
is_mark c = (c == b'<') || (c == b'>') || (c == b'"') || (c == b'\'')

abbrev pub marks : Text → Text
marks s = keep_if is_mark s

pub marks-append : (s t : Text) → marks (s ++ t) ≡ marks s ++ marks t
unfolding keep_if
marks-append [] t = refl
marks-append (c ∷ s) t = elim (Bool-cases (is_mark c)) [
  | inl e ↦ rw e (ap (λ l. c ∷ l) (marks-append s t))
  | inr e ↦ rw e (marks-append s t)
]

pub marks-IsInert : (s : Text) → All IsInert s → marks s ≡ []
unfolding keep_if
marks-IsInert [] h = refl
marks-IsInert (c ∷ s) ((a, b, d, e), h) = rw (a, b, d, e) (marks-IsInert s h)

pub marks-escape_html : (s : Text) → marks (escape_html s) ≡ []
marks-escape_html s = marks-IsInert (escape_html s) (escape_html-IsInert s)

pub IsDigit-IsInert : (s : Text) → All IsDigit s → All IsInert s
IsDigit-IsInert [] h = tt
IsDigit-IsInert (c ∷ s) ((low, high), h) =
    ((ground arith, ground arith, ground arith, ground arith), IsDigit-IsInert s h)

pub marks-decimal : (n : ℕ) → marks (decimal n) ≡ []
marks-decimal n = marks-IsInert (decimal n) (IsDigit-IsInert (decimal n) (decimal-IsDigit n))

-- Two texts with the same marks, both empty or both not.
pub record AreAlike (s t : Text) : Type 0 where
  pub same_marks : marks s ≡ marks t
  pub same_empty : is_empty s ≡ is_empty t

pub AreAlike-refl : (s : Text) → AreAlike s s
AreAlike-refl s = record { same_marks = refl; same_empty = refl }

is_empty-append : (s t : Text) → is_empty (s ++ t) ≡ is_empty s && is_empty t
is_empty-append [] t = refl
is_empty-append (c ∷ s) t = refl

pub AreAlike-append :
    (s s' t t' : Text) → AreAlike s s' → AreAlike t t' → AreAlike (s ++ t) (s' ++ t')
AreAlike-append s s' t t' h k = record {
  same_marks = rw (marks-append s t, marks-append s' t', h.same_marks, k.same_marks) refl;
  same_empty = rw (is_empty-append s t, is_empty-append s' t', h.same_empty, k.same_empty) refl;
}
