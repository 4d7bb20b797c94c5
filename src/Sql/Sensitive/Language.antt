-- ===== src/Sql/Sensitive/Language.antt =====
-- The matcher for sensitive column names decides the language of its pattern.
use sql_gateway_poc.Base.{
  ℕ, true, false, ◌&&◌, List, [], ◌∷◌, ◌++◌, map, ◌≡◌, ◌↔◌, ◌⊎◌, refl, inl, inr, arith, ap, ◌∙◌,
  ◌==◌, ==_iff, any, Bool-cases, &&-eq-true,
}
use sql_gateway_poc.Base.Text.{Text}
use sql_gateway_poc.Base.Adds.{Some, Occurs}
use sql_gateway_poc.Sql.Sensitive.{
  one, optional, Pattern, word, sensitive_alternatives, fold_case, matches_here, search_any,
  is_sensitive_column_name,
}

-- The words of a pattern.
abbrev pub Spells : Pattern → Text → Type 0
Spells [] w = w ≡ []
Spells (one a ∷ p) w = (rest : Text) × (w ≡ a ∷ rest) × Spells p rest
Spells (optional cs ∷ p) w =
    ((a : ℕ) × (rest : Text) × Occurs a cs × (w ≡ a ∷ rest) × Spells p rest) ⊎ Spells p w

-- The text begins with a word of the pattern.
abbrev pub Begins : Pattern → Text → Type 0
Begins p s = (w : Text) × (post : Text) × Spells p w × (s ≡ w ++ post)

any_iff : (c : ℕ) (cs : List ℕ) → (any (λ a. c == a) cs ≡ true) ↔ Occurs c cs
unfolding any
any_iff c [] = (λ h. cc, λ h. absurd h)
any_iff c (a ∷ cs) = (
  λ h. elim (Bool-cases (c == a)) [
    | inl e ↦ inl ((==_iff c a).0 e)
    | inr e ↦ inr ((any_iff c cs).0 (ground arith))
  ],
  λ h. elim h [
    | inl e ↦ ground (arith, (==_iff c a).1 e)
    | inr later ↦ ground (arith, (any_iff c cs).1 later)
  ],
)

not-empty : {a : ℕ} {w rest : Text} (post : Text) → [] ≡ w ++ post → w ≡ a ∷ rest → ⊥
not-empty {a} {w} {rest} post f e =
    let g : [] ≡ a ∷ (rest ++ post) = f ∙ ap (λ v. v ++ post) e in cc

head_tail :
    {c a : ℕ} {s w rest : Text} (post : Text)
    → c ∷ s ≡ w ++ post
    → w ≡ a ∷ rest
    → (c ≡ a) × (s ≡ rest ++ post)
head_tail {c} {a} {s} {w} {rest} post f e =
    let g : c ∷ s ≡ a ∷ (rest ++ post) = f ∙ ap (λ v. v ++ post) e in (cc, cc)

matches_here_iff : (p : Pattern) (s : Text) → (matches_here p s ≡ true) ↔ Begins p (map fold_case s)
unfolding matches_here
matches_here_iff [] s = (λ h. ([], map fold_case s, refl, refl), λ h. refl)
matches_here_iff (one a ∷ p) [] =
    (λ h. cc, λ (w, post, (rest, e, sp), f). absurd (not-empty post f e))
matches_here_iff (one a ∷ p) (c ∷ s) = (
  λ h.
      let (here, later) = &&-eq-true (fold_case c == a) (matches_here p s) h in
      let (w, post, sp, f) = (matches_here_iff p s).0 later in
      (a ∷ w, post, (w, refl, sp), cc ((==_iff (fold_case c) a).0 here)),
  λ (w, post, (rest, e, sp), f).
      let (h, t) = head_tail post f e in
      ground (arith, (==_iff (fold_case c) a).1 h, (matches_here_iff p s).1 (rest, post, sp, t)),
)
matches_here_iff (optional cs ∷ p) [] = (
  λ h. let (w, post, sp, f) = (matches_here_iff p []).0 h in (w, post, inr sp, f),
  λ (w, post, sp, f). elim sp [
    | inl (a, rest, occurs, e, sp') ↦ absurd (not-empty post f e)
    | inr sp' ↦ (matches_here_iff p []).1 (w, post, sp', f)
  ],
)
matches_here_iff (optional cs ∷ p) (c ∷ s) = (
  λ h. elim (Bool-cases (any (λ a. fold_case c == a) cs && matches_here p s)) [
    | inl both ↦
        let (here, later) = &&-eq-true _ (matches_here p s) both in
        let (w, post, sp, f) = (matches_here_iff p s).0 later in
        (
          fold_case c ∷ w,
          post,
          inl (fold_case c, w, (any_iff (fold_case c) cs).0 here, refl, sp),
          ap (λ v. fold_case c ∷ v) f,
        )
    | inr other ↦
        let (w, post, sp, f) = (matches_here_iff p (c ∷ s)).0 (ground arith) in (w, post, inr sp, f)
  ],
  λ (w, post, sp, f). elim sp [
    | inl (a, rest, occurs, e, sp') ↦
        let (h, t) = head_tail post f e in
        let class = (any_iff (fold_case c) cs).1 (rw h occurs) in
        ground (arith, class, (matches_here_iff p s).1 (rest, post, sp', t))
    | inr sp' ↦ ground (arith, (matches_here_iff p (c ∷ s)).1 (w, post, sp', f))
  ],
)

any_pattern_iff :
    (patterns : List Pattern) (s : Text)
    → (any (λ p. matches_here p s) patterns ≡ true)
      ↔ Some (λ p. Begins p (map fold_case s)) patterns
unfolding any
any_pattern_iff [] s = (λ h. cc, λ h. absurd h)
any_pattern_iff (p ∷ patterns) s = (
  λ h. elim (Bool-cases (matches_here p s)) [
    | inl e ↦ inl ((matches_here_iff p s).0 e)
    | inr e ↦ inr ((any_pattern_iff patterns s).0 (ground arith))
  ],
  λ h. elim h [
    | inl b ↦ ground (arith, (matches_here_iff p s).1 b)
    | inr later ↦ ground (arith, (any_pattern_iff patterns s).1 later)
  ],
)

-- A word of one of the patterns stands somewhere in the text.
abbrev pub Contains : List Pattern → Text → Type 0
Contains patterns s =
    (pre : Text) × (rest : Text) × (s ≡ pre ++ rest) × Some (λ p. Begins p rest) patterns

found_at :
    (patterns : List Pattern) (s pre rest : Text)
    → map fold_case s ≡ pre ++ rest
    → Some (λ p. Begins p rest) patterns
    → search_any patterns s ≡ true
unfolding search_any
found_at patterns [] [] rest e b = (any_pattern_iff patterns []).1 (rw e b)
found_at patterns [] (a ∷ pre) rest e b = cc
found_at patterns (c ∷ s) [] rest e b =
    ground (arith, (any_pattern_iff patterns (c ∷ s)).1 (rw e b))
found_at patterns (c ∷ s) (a ∷ pre) rest e b = ground (arith, found_at patterns s pre rest (cc) b)

search_any_iff :
    (patterns : List Pattern) (s : Text)
    → (search_any patterns s ≡ true) ↔ Contains patterns (map fold_case s)
unfolding search_any
search_any_iff patterns [] = (
  λ h. ([], [], refl, (any_pattern_iff patterns []).0 h),
  λ (pre, rest, e, b). found_at patterns [] pre rest e b,
)
search_any_iff patterns (c ∷ s) = (
  λ h. elim (Bool-cases (any (λ p. matches_here p (c ∷ s)) patterns)) [
    | inl here ↦ ([], map fold_case (c ∷ s), refl, (any_pattern_iff patterns (c ∷ s)).0 here)
    | inr other ↦
        let (pre, rest, e, b) = (search_any_iff patterns s).0 (ground arith) in
        (fold_case c ∷ pre, rest, ap (λ v. fold_case c ∷ v) e, b)
  ],
  λ (pre, rest, e, b). found_at patterns (c ∷ s) pre rest e b,
)

search_any_empty : search_any sensitive_alternatives [] ≡ false
unfolding search_any word
search_any_empty = refl

pub sensitive_search :
    (name : Text)
    → (is_sensitive_column_name name ≡ true) ↔ Contains sensitive_alternatives (map fold_case name)
unfolding is_sensitive_column_name
sensitive_search [] =
    (λ h. cc, λ h. cc (search_any_empty, (search_any_iff sensitive_alternatives []).1 h))
sensitive_search (c ∷ s) = search_any_iff sensitive_alternatives (c ∷ s)
