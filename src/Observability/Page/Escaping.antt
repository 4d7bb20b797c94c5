-- ===== src/Observability/Page/Escaping.antt =====
-- Escaped text cannot open a tag or leave an attribute.
use sql_gateway_poc.Base.{ℕ, false, [], ◌∷◌, ◌≡◌, refl, ◌==◌, All, All-append, Bool-cases, inl, inr}
use sql_gateway_poc.Base.Text.{Text, codes}
use sql_gateway_poc.Observability.Page.{replace_all, escape_html}

-- The character is none of < > " '.
abbrev pub IsInert : ℕ → Type 0
IsInert c =
    ((c == b'<') ≡ false) × ((c == b'>') ≡ false) × ((c == b'"') ≡ false) × ((c == b'\'') ≡ false)

-- A replacement by inert text removes the character, and brings none of the others in.
replace_all-All :
    (P Q : ℕ → Type 0) (c : ℕ) (by s : Text)
    → All Q by
    → ((d : ℕ) → P d → (d == c) ≡ false → Q d)
    → All P s
    → All Q (replace_all c by s)
unfolding replace_all
replace_all-All P Q c by [] hby keep h = tt
replace_all-All P Q c by (d ∷ s) hby keep h = elim (Bool-cases (d == c)) [
  | inl e ↦
      rw e (All-append Q by (replace_all c by s) hby (replace_all-All P Q c by s hby keep h.1))
  | inr e ↦ rw e (keep d h.0 e, replace_all-All P Q c by s hby keep h.1)
]

abbrev None : ℕ → Type 0
None c = Unit

anything : (s : Text) → All None s
anything [] = tt
anything (c ∷ s) = (tt, anything s)

abbrev No1 : ℕ → Type 0
No1 c = (c == b'<') ≡ false

abbrev No2 : ℕ → Type 0
No2 c = ((c == b'<') ≡ false) × ((c == b'>') ≡ false)

abbrev No3 : ℕ → Type 0
No3 c = ((c == b'<') ≡ false) × ((c == b'>') ≡ false) × ((c == b'"') ≡ false)

-- The page shows no escaped text that holds one of < > " ', whatever the text was.
pub escape_html-IsInert : (value : Text) → All IsInert (escape_html value)
unfolding escape_html codes
escape_html-IsInert value =
    let t0 = replace_all b'&' (codes "&amp;") value in
    let t1 = replace_all b'<' (codes "&lt;") t0 in
    let t2 = replace_all b'>' (codes "&gt;") t1 in
    let t3 = replace_all b'"' (codes "&quot;") t2 in
    let h1 : All No1 t1 =
      replace_all-All None No1 b'<' (codes "&lt;") t0 (refl, (refl, (refl, (refl, tt))))
        (λ d h e. e) (anything t0) in
    let h2 : All No2 t2 =
      replace_all-All No1 No2 b'>' (codes "&gt;") t1
        ((refl, refl), ((refl, refl), ((refl, refl), ((refl, refl), tt)))) (λ d h e. (h, e)) h1 in
    let h3 : All No3 t3 =
      replace_all-All No2 No3 b'"' (codes "&quot;") t2
        (
          (refl, refl, refl),
          (
            (refl, refl, refl),
            (
              (refl, refl, refl),
              ((refl, refl, refl), ((refl, refl, refl), ((refl, refl, refl), tt))),
            ),
          ),
        )
        (λ d h e. (h.0, h.1, e)) h2 in
    replace_all-All No3 IsInert b'\'' (codes "&#039;") t3
      (
        (refl, refl, refl, refl),
        (
          (refl, refl, refl, refl),
          (
            (refl, refl, refl, refl),
            ((refl, refl, refl, refl), ((refl, refl, refl, refl), ((refl, refl, refl, refl), tt))),
          ),
        ),
      )
      (λ d h e. (h.0, h.1, h.2, e)) h3
