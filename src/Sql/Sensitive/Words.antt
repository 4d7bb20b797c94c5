-- ===== src/Sql/Sensitive/Words.antt =====
-- The words that make a column name sensitive, and the letters that they are written with.
use sql_gateway_poc.Base.{
  ℕ, ◌+◌, ◌≤◌, true, List, [], ◌∷◌, ◌++◌, map, String, ◌≡◌, ◌↔◌, ◌⊎◌, refl, sym, ap, ◌∙◌, subst,
  inl, inr, arith, ◌==◌, ==_iff, All, Bool, ◌&&◌, ◌||◌, leb, Bool-cases, &&-eq-true,
}
use sql_gateway_poc.Base.Text.{Text, codes}
use sql_gateway_poc.Base.Adds.{Some}
use sql_gateway_poc.Sql.Sensitive.{
  word, sensitive_alternatives, fold_case, is_sensitive_column_name,
}
use sql_gateway_poc.Sql.Sensitive.Expansions.{HasPrefix, all_words, all_words_iff}
use sql_gateway_poc.Sql.Sensitive.Language.{Contains, sensitive_search}

-- The words, written out.
abbrev pub sensitive_words : List String
sensitive_words =
    "password" ∷ "passwd" ∷ "secret" ∷ "token" ∷ "api_key" ∷ "api-key" ∷ "apikey" ∷ "private_key"
    ∷ "private-key" ∷ "privatekey" ∷ "auth" ∷ "session" ∷ "credential" ∷ "hash" ∷ "salt" ∷ "pin"
    ∷ "cvv" ∷ "ssn" ∷ []

-- The character `c` may stand for the character `a` of a word: it is the same, or its capital, or
-- a character that Unicode folds to it: dotted I and dotless i, the Kelvin sign, the long s.
abbrev pub StandsFor : ℕ → ℕ → Type 0
StandsFor c a =
    (c ≡ a)
    ⊎ ((b'A' ≤ c) × (c ≤ b'Z') × (a ≡ c + 32))
    ⊎ ((a ≡ b'i') × ((c ≡ 0x130) ⊎ (c ≡ 0x131)))
    ⊎ ((a ≡ b'k') × (c ≡ 0x212a))
    ⊎ ((a ≡ b's') × (c ≡ 0x17f))

-- The text begins with the word, in any case.
abbrev pub StartsWith : Text → Text → Type 0
StartsWith [] s = Unit
StartsWith (a ∷ w) [] = ⊥
StartsWith (a ∷ w) (c ∷ s) = StandsFor c a × StartsWith w s

-- The word stands somewhere in the text, in any case.
abbrev pub StandsIn : Text → Text → Type 0
StandsIn w s = (pre : Text) × (rest : Text) × (s ≡ pre ++ rest) × StartsWith w rest

-- A character of the words: a small letter, an underscore or a dash.
abbrev IsPlain : ℕ → Type 0
IsPlain a = ((b'a' ≤ a) × (a ≤ b'z')) ⊎ (a ≡ b'_') ⊎ (a ≡ b'-')

fold_case_iff : (a c : ℕ) → IsPlain a → (fold_case c ≡ a) ↔ StandsFor c a
unfolding fold_case
fold_case_iff a c h = (λ e. ground (arith, e, h), λ e. ground (arith, e, h))

is_plain : ℕ → Bool
is_plain a = (leb b'a' a && leb a b'z') || (a == b'_') || (a == b'-')

is_plain-IsPlain : (a : ℕ) → is_plain a ≡ true → IsPlain a
unfolding is_plain
is_plain-IsPlain a h = elim (Bool-cases (a == b'_')) [
  | inl e ↦ inr (inl ((==_iff a b'_').0 e))
  | inr e ↦ elim (Bool-cases (a == b'-')) [
    | inl d ↦ inr (inr ((==_iff a b'-').0 d))
    | inr d ↦ inl (ground (arith, h, e, d))
  ]
]

are_plain : List Text → Bool
unfolding is_plain
are_plain [] = true
are_plain ([] ∷ words) = are_plain words
are_plain ((a ∷ w) ∷ words) = is_plain a && are_plain (w ∷ words)

are_plain-IsPlain : (words : List Text) → are_plain words ≡ true → All (All IsPlain) words
unfolding are_plain
are_plain-IsPlain [] h = tt
are_plain-IsPlain ([] ∷ words) h = (tt, are_plain-IsPlain words h)
are_plain-IsPlain ((a ∷ w) ∷ words) h =
    let (here, later) = &&-eq-true (is_plain a) (are_plain (w ∷ words)) h in
    let (w_plain, others) = are_plain-IsPlain (w ∷ words) later in
    ((is_plain-IsPlain a here, w_plain), others)

starts_iff : (w s : Text) → All IsPlain w → StartsWith w s ↔ HasPrefix (map fold_case s) w
starts_iff [] s h = (λ u. (map fold_case s, refl), λ u. tt)
starts_iff (a ∷ w) [] h = (λ f. absurd f, λ (post, e). cc)
starts_iff (a ∷ w) (c ∷ s) h = (
  λ (stands, later).
      let (post, e) = (starts_iff w s h.1).0 later in
      (post, cc ((fold_case_iff a c h.0).1 stands, e)),
  λ (post, e). ((fold_case_iff a c h.0).0 (cc e), (starts_iff w s h.1).1 (post, cc e)),
)

words_listed : all_words sensitive_alternatives ≡ map codes sensitive_words
unfolding word codes
words_listed = refl

words-IsPlain : All (All IsPlain) (map codes sensitive_words)
unfolding are_plain is_plain codes
words-IsPlain = are_plain-IsPlain (map codes sensitive_words) refl

map-parts :
    (s pre rest : Text)
    → map fold_case s ≡ pre ++ rest
    → (pre' : Text) × (rest' : Text) × (s ≡ pre' ++ rest') × (map fold_case rest' ≡ rest)
map-parts s [] rest e = ([], s, refl, e)
map-parts [] (a ∷ pre) rest e = cc
map-parts (c ∷ s) (a ∷ pre) rest e =
    let (pre', rest', e', e'') = map-parts s pre rest (cc) in
    (c ∷ pre', rest', ap (λ v. c ∷ v) e', e'')

map-join : (pre rest : Text) → map fold_case (pre ++ rest) ≡ map fold_case pre ++ map fold_case rest
map-join [] rest = refl
map-join (c ∷ pre) rest = ap (λ v. fold_case c ∷ v) (map-join pre rest)

-- For the first word that stands in the text, or any other.
stands_iff :
    (words : List Text) (s : Text)
    → All (All IsPlain) words
    → Some (λ w. StandsIn w s) words ↔ (
        (pre : Text) × (rest : Text) × (s ≡ pre ++ rest)
        × Some (HasPrefix (map fold_case rest)) words)
stands_iff [] s h = (λ f. absurd f, λ (pre, rest, e, f). f)
stands_iff (w ∷ words) s h = (
  λ some_word. elim some_word [
    | inl (pre, rest, e, starts) ↦ (pre, rest, e, inl ((starts_iff w rest h.0).0 starts))
    | inr later ↦
        let (pre, rest, e, has) = (stands_iff words s h.1).0 later in (pre, rest, e, inr has)
  ],
  λ (pre, rest, e, has). elim has [
    | inl here ↦ inl (pre, rest, e, (starts_iff w rest h.0).1 here)
    | inr later ↦ inr ((stands_iff words s h.1).1 (pre, rest, e, later))
  ],
)

folded_iff :
    (s : Text)
    → Contains sensitive_alternatives (map fold_case s) ↔ (
        (pre : Text) × (rest : Text) × (s ≡ pre ++ rest)
        × Some (HasPrefix (map fold_case rest)) (map codes sensitive_words))
folded_iff s = (
  λ (pre, rest, e, some_pattern).
      let (pre', rest', e', same) = map-parts s pre rest e in
      let has = (all_words_iff sensitive_alternatives rest).0 some_pattern in
      (
        pre',
        rest',
        e',
        subst (λ t. Some (HasPrefix t) (map codes sensitive_words)) (sym same)
            (subst (Some (HasPrefix rest)) words_listed has),
      ),
  λ (pre, rest, e, has). (
    map fold_case pre,
    map fold_case rest,
    ap (map fold_case) e ∙ map-join pre rest,
    (all_words_iff sensitive_alternatives (map fold_case rest)).1
        (subst (Some (HasPrefix (map fold_case rest))) (sym words_listed) has),
  ),
)

-- A column name is sensitive exactly if one of these words stands somewhere in it, each letter
-- small or capital or written with a character that Unicode folds to it: password, passwd, secret,
-- token, auth, session, credential, hash, salt, pin, cvv, ssn, or api or private followed by key,
-- with an underscore, a dash or nothing between.
pub is_sensitive_column_name_iff :
    (name : Text)
    → (is_sensitive_column_name name ≡ true)
      ↔ Some (λ w. StandsIn w name) (map codes sensitive_words)
is_sensitive_column_name_iff name = (
  λ h.
      (stands_iff (map codes sensitive_words) name words-IsPlain).1
        ((folded_iff name).0 ((sensitive_search name).0 h)),
  λ h.
      (sensitive_search name).1
        ((folded_iff name).1 ((stands_iff (map codes sensitive_words) name words-IsPlain).0 h)),
)
