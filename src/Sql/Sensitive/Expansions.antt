-- ===== src/Sql/Sensitive/Expansions.antt =====
-- The words of patterns, as a list.
use sql_gateway_poc.Base.{
  ℕ, List, [], ◌∷◌, ◌++◌, map, ◌≡◌, ◌↔◌, ◌⊎◌, refl, sym, ap, ◌∙◌, subst, inl, inr,
}
use sql_gateway_poc.Base.Text.{Text}
use sql_gateway_poc.Base.Adds.{Some, Occurs}
use sql_gateway_poc.Sql.Sensitive.{one, optional, Pattern}
use sql_gateway_poc.Sql.Sensitive.Language.{Spells, Begins}

abbrev pub HasPrefix : Text → Text → Type 0
HasPrefix t w = (post : Text) × (t ≡ w ++ post)

module _ {A : Type 0} (P : A → Type 0) where
  occurring : (a : A) (xs : List A) → P a → Occurs a xs → Some P xs
  occurring a (x ∷ xs) p (inl e) = inl (subst P e p)
  occurring a (x ∷ xs) p (inr h) = inr (occurring a xs p h)
  occurring a [] p h = absurd h

  found : (xs : List A) → Some P xs → (a : A) × P a × Occurs a xs
  found (x ∷ xs) (inl p) = (x, p, inl refl)
  found (x ∷ xs) (inr h) = let (a, p, o) = found xs h in (a, p, inr o)
  found [] h = absurd h

abbrev each_before : List ℕ → List Text → List Text
each_before [] words = words
each_before (a ∷ cs) words = map (λ w. a ∷ w) words ++ each_before cs words

-- The words of a pattern, listed.
abbrev expansions : Pattern → List Text
expansions [] = [] ∷ []
expansions (one a ∷ p) = map (λ w. a ∷ w) (expansions p)
expansions (optional cs ∷ p) = each_before cs (expansions p)

abbrev pub all_words : List Pattern → List Text
all_words [] = []
all_words (p ∷ patterns) = expansions p ++ all_words patterns

in_left : {A : Type 0} (a : A) (xs ys : List A) → Occurs a xs → Occurs a (xs ++ ys)
in_left a (x ∷ xs) ys (inl e) = inl e
in_left a (x ∷ xs) ys (inr o) = inr (in_left a xs ys o)
in_left a [] ys o = absurd o

in_right : {A : Type 0} (a : A) (xs ys : List A) → Occurs a ys → Occurs a (xs ++ ys)
in_right a [] ys o = o
in_right a (x ∷ xs) ys o = inr (in_right a xs ys o)

in_parts : {A : Type 0} (a : A) (xs ys : List A) → Occurs a (xs ++ ys) → Occurs a xs ⊎ Occurs a ys
in_parts a [] ys o = inr o
in_parts a (x ∷ xs) ys (inl e) = inl (inl e)
in_parts a (x ∷ xs) ys (inr o) = elim (in_parts a xs ys o) [ inl l ↦ inl (inr l) | inr r ↦ inr r ]

in-map :
    (a : ℕ) (w : Text) (words : List Text)
    → Occurs w words
    → Occurs (a ∷ w) (map (λ v. a ∷ v) words)
in-map a w (v ∷ words) (inl e) = inl (ap (λ x. a ∷ x) e)
in-map a w (v ∷ words) (inr o) = inr (in-map a w words o)
in-map a w [] o = absurd o

map-in :
    (a : ℕ) (w : Text) (words : List Text)
    → Occurs w (map (λ v. a ∷ v) words)
    → (rest : Text) × (w ≡ a ∷ rest) × Occurs rest words
map-in a w (v ∷ words) (inl e) = (v, e, inl refl)
map-in a w (v ∷ words) (inr o) = let (rest, e, o') = map-in a w words o in (rest, e, inr o')
map-in a w [] o = absurd o

each_before_iff :
    (cs : List ℕ) (words : List Text) (w : Text)
    → Occurs w (each_before cs words) ↔ (
        ((a : ℕ) × (rest : Text) × Occurs a cs × (w ≡ a ∷ rest) × Occurs rest words)
        ⊎ Occurs w words)
each_before_iff [] words w =
    (λ o. inr o, λ h. elim h [ inl (a, rest, o, e, o') ↦ absurd o | inr o ↦ o ])
each_before_iff (c ∷ cs) words w = (
  λ o. elim (in_parts w (map (λ v. c ∷ v) words) (each_before cs words) o) [
    | inl here ↦ let (rest, e, o') = map-in c w words here in inl (c, rest, inl refl, e, o')
    | inr later ↦ elim ((each_before_iff cs words w).0 later) [
      | inl (a, rest, oa, e, o') ↦ inl (a, rest, inr oa, e, o')
      | inr o' ↦ inr o'
    ]
  ],
  λ h. elim h [
    | inl (a, rest, oa, e, o') ↦ elim oa [
      | inl same ↦ in_left w (map (λ v. c ∷ v) words) (each_before cs words) (
          subst (λ v. Occurs v (map (λ v. c ∷ v) words)) (sym (e ∙ ap (λ b. b ∷ rest) same))
            (in-map c rest words o'))
      | inr other ↦
          in_right w (map (λ v. c ∷ v) words) (each_before cs words)
            ((each_before_iff cs words w).1 (inl (a, rest, other, e, o')))
    ]
    | inr o' ↦
        in_right w (map (λ v. c ∷ v) words) (each_before cs words)
          ((each_before_iff cs words w).1 (inr o'))
  ],
)

expansions_iff : (p : Pattern) (w : Text) → Spells p w ↔ Occurs w (expansions p)
expansions_iff [] w = (λ e. inl e, λ o. elim o [ inl e ↦ e | inr f ↦ absurd f ])
expansions_iff (one a ∷ p) w = (
  λ (rest, e, sp).
      subst (λ v. Occurs v (map (λ v. a ∷ v) (expansions p))) (sym e)
        (in-map a rest (expansions p) ((expansions_iff p rest).0 sp)),
  λ o. let (rest, e, o') = map-in a w (expansions p) o in (rest, e, (expansions_iff p rest).1 o'),
)
expansions_iff (optional cs ∷ p) w = (
  λ h. (each_before_iff cs (expansions p) w).1 (elim h [
    | inl (a, rest, oa, e, sp) ↦ inl (a, rest, oa, e, (expansions_iff p rest).0 sp)
    | inr sp ↦ inr ((expansions_iff p w).0 sp)
  ]),
  λ o. elim ((each_before_iff cs (expansions p) w).0 o) [
    | inl (a, rest, oa, e, o') ↦ inl (a, rest, oa, e, (expansions_iff p rest).1 o')
    | inr o' ↦ inr ((expansions_iff p w).1 o')
  ],
)

pub all_words_iff :
    (patterns : List Pattern) (t : Text)
    → Some (λ p. Begins p t) patterns ↔ Some (HasPrefix t) (all_words patterns)
all_words_iff [] t = (λ h. h, λ h. h)
all_words_iff (p ∷ patterns) t = (
  λ h. elim h [
    | inl (w, post, sp, e) ↦
        occurring (HasPrefix t) w (all_words (p ∷ patterns)) (post, e)
          (in_left w (expansions p) (all_words patterns) ((expansions_iff p w).0 sp))
    | inr later ↦
        let (w, has, o) =
          found (HasPrefix t) (all_words patterns) ((all_words_iff patterns t).0 later) in
        occurring (HasPrefix t) w (all_words (p ∷ patterns)) has
          (in_right w (expansions p) (all_words patterns) o)
  ],
  λ h.
      let (w, has, o) = found (HasPrefix t) (all_words (p ∷ patterns)) h in
      elim (in_parts w (expansions p) (all_words patterns) o) [
        | inl here ↦ inl (w, has.0, (expansions_iff p w).1 here, has.1)
        | inr later ↦ inr (
            (all_words_iff patterns t).1 (occurring (HasPrefix t) w (all_words patterns) has later))
      ],
)
