-- ===== src/Sql/Scrubber/Edits.antt =====
-- What the scrubber does to a statement before it is logged.
use mathlib.Core.List.{append_cancel_left, append_cancel_right}
use sql_gateway_poc.Base.{
  ℕ, ◌+◌, Bool, true, false, List, [], ◌∷◌, map, ◌≡◌, ◌≢◌, ◌<◌, subst, ◌↔◌, ◌⊎◌, refl, inl, inr,
  arith, Bool-cases, All, ap, if◌then◌else◌,
}
use sql_gateway_poc.Base.Text.{Text, codes}
use sql_gateway_poc.Base.Decimal.{decimal, decimal-injective}
use sql_gateway_poc.Base.Adds.{Adds, Adds-then, Some, Occurs}
use sql_gateway_poc.Sql.Ast.{insert, literal, eq, Replacement, string_literal, placeholder, Sqlglot}
use sql_gateway_poc.Sql.Scrubber.{
  redaction_marker, mark_update_set_assignments, mark_insert_values, collect_sensitive_literal_ids,
  contains, replacements, replace_all_literals,
}
use sql_gateway_poc.Sql.Scrubber.Marks.{MarkedByAssignment, mark_assignments-Adds}
use sql_gateway_poc.Sql.Scrubber.Inserts.{MarkedByInsert, mark_inserts-Adds}

abbrev pub IsRedaction : Replacement → Type 0
IsRedaction (string_literal _) = Unit
IsRedaction (placeholder _) = ⊥

IsRedaction-iff :
    {P : Type 0} (b : Bool) (marker index : Text)
    → (b ≡ true) ↔ P
    → IsRedaction (if b then string_literal marker else placeholder index) ↔ P
IsRedaction-iff true marker index same = (λ _. same.0 refl, λ _. tt)
IsRedaction-iff false marker index same = (λ h. absurd h, λ p. cc (same.1 p))

-- The text stands for the number `index`, as a marker or as a placeholder.
abbrev pub Numbers : ℕ → Replacement → Type 0
Numbers index r = (r ≡ string_literal (redaction_marker index)) ⊎ (r ≡ placeholder (decimal index))

-- The replacements are numbered in order, from `index` on.
abbrev pub IsNumbered {ℓ} : {N : Type ℓ} → ℕ → List (N × Replacement) → Type 0
IsNumbered index [] = Unit
IsNumbered index ((_, r) ∷ edits) = Numbers index r × IsNumbered (index + 1) edits

redaction_marker-injective : (i j : ℕ) → redaction_marker i ≡ redaction_marker j → i ≡ j
unfolding redaction_marker
redaction_marker-injective i j h = decimal-injective i j (
    append_cancel_right (decimal i) (decimal j) (codes "]")
      (append_cancel_left (codes "[REDACTED:$") _ _ h))

-- No two literals of a statement share a number.
Numbers-injective : (i j : ℕ) (r : Replacement) → Numbers i r → Numbers j r → i ≡ j
Numbers-injective i j r h k = elim h [
  | inl a ↦ elim k [ inl b ↦ redaction_marker-injective i j (cc) | inr b ↦ cc ]
  | inr a ↦ elim k [ inl b ↦ cc | inr b ↦ decimal-injective i j (cc) ]
]

module _ (sqlglot : Sqlglot) where
  open sqlglot use {Node, is_same, find_all}

  -- The literal is given to a sensitive column, by an UPDATE or by an INSERT.
  abbrev pub IsSensitive : Node → Node → Type 0
  IsSensitive statement l =
      Some (λ e. MarkedByAssignment sqlglot e l) (find_all statement eq)
      ⊎ Some (λ n. MarkedByInsert sqlglot n l) (find_all statement insert)

  collect-Adds :
      (statement : Node)
      → Adds (IsSensitive statement) [] (collect_sensitive_literal_ids sqlglot statement)
  unfolding collect_sensitive_literal_ids mark_update_set_assignments mark_insert_values
  collect-Adds statement =
      Adds-then (mark_assignments-Adds sqlglot (find_all statement eq) [])
        (mark_inserts-Adds sqlglot (find_all statement insert) _)

  map-replacements :
      (index : ℕ) (literals ids : List Node)
      → map (λ (e : Node × Replacement). e.0) (replacements sqlglot index literals ids) ≡ literals
  unfolding replacements
  map-replacements index [] ids = refl
  map-replacements index (l ∷ literals) ids =
      ap (λ nodes. l ∷ nodes) (map-replacements (index + 1) literals ids)

  module _ (same_iff : (m n : Node) → (is_same m n ≡ true) ↔ (m ≡ n)) where
    folded_iff : (l : Node) (ids : List Node) → (contains sqlglot l ids ≡ true) ↔ Occurs l ids
    unfolding contains
    folded_iff l [] = (λ h. cc, λ h. absurd h)
    folded_iff l (id ∷ ids) = (
      λ h. elim (Bool-cases (is_same l id)) [
        | inl here ↦ inl ((same_iff l id).0 here)
        | inr other ↦ inr ((folded_iff l ids).0 (ground arith))
      ],
      λ h. elim h [
        | inl e ↦ ground (arith, (same_iff l id).1 e)
        | inr later ↦ ground (arith, (folded_iff l ids).1 later)
      ],
    )

    -- The redactions are the replacements of the literals in the set.
    replacements-redact :
        (P : Node → Type 0) (index : ℕ) (literals ids : List Node)
        → ((l : Node) → Occurs l ids ↔ P l)
        → All (λ e. IsRedaction e.1 ↔ P e.0) (replacements sqlglot index literals ids)
    unfolding replacements
    replacements-redact P index [] ids same = tt
    replacements-redact P index (l ∷ literals) ids same =
        let flagged = folded_iff l ids in
        (
          IsRedaction-iff (contains sqlglot l ids) _ _
              (λ h. (same l).0 (flagged.0 h), λ p. flagged.1 ((same l).1 p)),
          replacements-redact P (index + 1) literals ids same,
        )

  replacements-IsNumbered :
      (index : ℕ) (literals ids : List Node)
      → IsNumbered index (replacements sqlglot index literals ids)
  unfolding replacements
  replacements-IsNumbered index [] ids = tt
  replacements-IsNumbered index (l ∷ literals) ids =
      (ground arith, replacements-IsNumbered (index + 1) literals ids)

  -- The literals that the scrubber replaces are those of the statement, all of them and in order;
  -- they are numbered from 1; and a literal becomes a redaction marker, not a mere placeholder,
  -- exactly if an assignment of an UPDATE or a row of an INSERT gives it, or a value that holds
  -- it, to a column with a sensitive name. Identity of nodes (`is`) is taken to be equality.
  pub scrub_edits :
      ((m n : Node) → (is_same m n ≡ true) ↔ (m ≡ n))
      → (statement : Node)
      → let edits =
          replace_all_literals sqlglot statement
            (collect_sensitive_literal_ids sqlglot statement) in
        (map (λ e. e.0) edits ≡ find_all statement literal)
        × IsNumbered 1 edits
        × All (λ e. IsRedaction e.1 ↔ IsSensitive statement e.0) edits
  unfolding replace_all_literals
  scrub_edits same_iff statement =
      let ids = collect_sensitive_literal_ids sqlglot statement in
      let literals = find_all statement literal in
      let added = collect-Adds statement in
      (
        map-replacements 1 literals ids,
        replacements-IsNumbered 1 literals ids,
        replacements-redact same_iff (IsSensitive statement) 1 literals ids
            λ l. (λ h. elim (added.parts l h) [ inl p ↦ p | inr none ↦ absurd none ], added.new l),
      )

-- No two of the replacements are alike.
abbrev pub AreDistinct : {N : Type 0} → List (N × Replacement) → Type 0
AreDistinct [] = Unit
AreDistinct ((_, r) ∷ edits) = All (λ e. r ≢ e.1) edits × AreDistinct edits

module _ {N : Type 0} where
  differs_from_later :
      (i j : ℕ) (r : Replacement) (edits : List (N × Replacement))
      → Numbers i r
      → i < j
      → IsNumbered j edits
      → All (λ e. r ≢ e.1) edits
  differs_from_later i j r [] n h numbered = tt
  differs_from_later i j r ((_, q) ∷ edits) n h (first, rest) = (
    λ e.
        let same : i ≡ j = Numbers-injective i j q (subst (Numbers i) e n) first in
        absurd (omega (arith, h, same)),
    differs_from_later i (j + 1) r edits n (omega (arith, h)) rest,
  )

  IsNumbered-AreDistinct :
      (i : ℕ) (edits : List (N × Replacement)) → IsNumbered i edits → AreDistinct edits
  IsNumbered-AreDistinct i [] h = tt
  IsNumbered-AreDistinct i ((_, r) ∷ edits) (first, rest) = (
    differs_from_later i (i + 1) r edits first (omega arith) rest,
    IsNumbered-AreDistinct (i + 1) edits rest,
  )

-- The literals of a statement are replaced by texts of which no two are alike, whichever literals
-- are marked as sensitive.
pub replace_all_literals_distinguishes :
    (sqlglot : Sqlglot) (statement : sqlglot.Node) (ids : List sqlglot.Node)
    → AreDistinct (replace_all_literals sqlglot statement ids)
unfolding replace_all_literals
replace_all_literals_distinguishes sqlglot statement ids =
    IsNumbered-AreDistinct 1 _
      (replacements-IsNumbered sqlglot 1 (sqlglot.find_all statement literal) ids)
