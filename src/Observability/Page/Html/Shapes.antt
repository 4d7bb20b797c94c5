-- ===== src/Observability/Page/Html/Shapes.antt =====
-- Entries of the same shape have cards with the same markup.
use sql_gateway_poc.Base.{
  ℕ, zero, suc, Bool, true, false, Option, none, some, List, [], ◌∷◌, ◌++◌, String, ◌==◌,
  if◌then◌else◌, keep_if, ◌≡◌, refl, sym, ◌∙◌, Bool-cases, inl, inr, length,
}
use sql_gateway_poc.Base.Text.{Text, codes}
use sql_gateway_poc.Base.Decimal.{decimal}
use sql_gateway_poc.Core.Values.{ℤ, pos, negsuc}
use sql_gateway_poc.Core.Entry.{ObservabilityEntryDto}
use sql_gateway_poc.Observability.Page.{escape_html}
use sql_gateway_poc.Observability.Page.Html.{
  stat_chip, rows_chip, columns_chip, affected_chip, truncated_chip, or_no_data, summary, part,
  text_of,
}
use sql_gateway_poc.Observability.Page.Html.Marks.{
  marks, marks-append, marks-escape_html, marks-decimal, AreAlike, AreAlike-refl,
}

-- What a compact result shows.
abbrev pub has_number : Option ℕ → Bool
has_number (some (suc n)) = true
has_number _ = false

abbrev pub has_columns : Option (List Text) → Bool
has_columns (some (c ∷ columns)) = true
has_columns _ = false

abbrev pub has_affected : Option ℤ → Bool
has_affected (some (pos (suc n))) = true
has_affected _ = false

abbrev pub is_true : Option Bool → Bool
is_true (some true) = true
is_true _ = false

abbrev pub has_text : Option Text → Bool
has_text (some (c ∷ s)) = true
has_text _ = false

-- Same decision, and the same of the optional parts are there.
pub record SameShape (e f : ObservabilityEntryDto) : Type 0 where
  pub decision : e.decision ≡ f.decision
  pub rows : has_number e.rows_returned ≡ has_number f.rows_returned
  pub columns : has_columns e.columns ≡ has_columns f.columns
  pub affected : has_affected e.rows_affected ≡ has_affected f.rows_affected
  pub truncated : is_true e.rows_were_truncated ≡ is_true f.rows_were_truncated
  pub code : has_text (text_of e.rejection_code) ≡ has_text (text_of f.rejection_code)
  pub detail : has_text e.rejection_detail ≡ has_text f.rejection_detail
  pub db_code : has_text e.db_error_code ≡ has_text f.db_error_code
  pub db_message : has_text e.db_error_message ≡ has_text f.db_error_message

pub same_behind : (s t t' : Text) → marks t ≡ marks t' → marks (s ++ t) ≡ marks (s ++ t')
same_behind s t t' h = rw (marks-append s t, marks-append s t', h) refl

pub same_before :
    (s s' t t' : Text) → marks s ≡ marks s' → marks t ≡ marks t' → marks (s ++ t) ≡ marks (s' ++ t')
same_before s s' t t' h k = rw (marks-append s t, marks-append s' t', h, k) refl

-- A noun of a chip.
noun_alike :
    (n : ℕ) (one many : String)
    → marks (codes one) ≡ []
    → marks (codes many) ≡ []
    → marks (codes (if n == 1 then one else many)) ≡ []
noun_alike n one many h k = elim (Bool-cases (n == 1)) [ inl e ↦ rw e h | inr e ↦ rw e k ]

stat_chip-AreAlike :
    (m n : ℕ) (one many : String)
    → marks (codes one) ≡ []
    → marks (codes many) ≡ []
    → AreAlike (stat_chip m one many) (stat_chip n one many)
unfolding stat_chip codes
stat_chip-AreAlike m n one many h k = record {
  same_marks = same_behind (codes "<span class=\"stat-chip\"><strong>") _ _ (
      same_before (decimal m) (decimal n) _ _ (marks-decimal m ∙ sym (marks-decimal n)) (
        same_behind (codes "</strong> ") _ _ (
          same_before _ _ (codes "</span>") (codes "</span>")
            (noun_alike m one many h k ∙ sym (noun_alike n one many h k)) refl)));
  same_empty = refl;
}

pub part_alike :
    (before after : String) (o o' : Option Text)
    → has_text o ≡ has_text o'
    → marks (part before o after) ≡ marks (part before o' after)
unfolding part
part_alike before after none none e = refl
part_alike before after none (some []) e = refl
part_alike before after (some []) none e = refl
part_alike before after (some []) (some []) e = refl
part_alike before after (some (c ∷ s)) (some (d ∷ t)) e = same_behind (codes before) _ _ (
    same_before (escape_html (c ∷ s)) (escape_html (d ∷ t)) (codes after) (codes after)
      (marks-escape_html (c ∷ s) ∙ sym (marks-escape_html (d ∷ t))) refl)
part_alike before after _ _ e = cc

pub rows_chip-AreAlike :
    (o o' : Option ℕ) → has_number o ≡ has_number o' → AreAlike (rows_chip o) (rows_chip o')
unfolding rows_chip codes keep_if
rows_chip-AreAlike none none e = AreAlike-refl []
rows_chip-AreAlike none (some zero) e = AreAlike-refl []
rows_chip-AreAlike (some zero) none e = AreAlike-refl []
rows_chip-AreAlike (some zero) (some zero) e = AreAlike-refl []
rows_chip-AreAlike (some (suc m)) (some (suc n)) e =
    stat_chip-AreAlike (suc m) (suc n) "row returned" "rows returned" refl refl
rows_chip-AreAlike _ _ e = cc

pub columns_chip-AreAlike :
    (o o' : Option (List Text))
    → has_columns o ≡ has_columns o'
    → AreAlike (columns_chip o) (columns_chip o')
unfolding columns_chip codes keep_if
columns_chip-AreAlike none none e = AreAlike-refl []
columns_chip-AreAlike none (some []) e = AreAlike-refl []
columns_chip-AreAlike (some []) none e = AreAlike-refl []
columns_chip-AreAlike (some []) (some []) e = AreAlike-refl []
columns_chip-AreAlike (some (c ∷ cs)) (some (d ∷ ds)) e =
    stat_chip-AreAlike (length (c ∷ cs)) (length (d ∷ ds)) "column" "columns" refl refl
columns_chip-AreAlike _ _ e = cc

-- The number of affected rows is shown if it is positive.
abbrev shown_number : Option ℤ → ℕ
shown_number none = 0
shown_number (some (negsuc n)) = 0
shown_number (some (pos n)) = n

affected_chip_eq :
    (o : Option ℤ)
    → affected_chip o
      ≡ (if has_affected o then stat_chip (shown_number o) "row affected" "rows affected" else [])
unfolding affected_chip
affected_chip_eq none = refl
affected_chip_eq (some (negsuc n)) = refl
affected_chip_eq (some (pos zero)) = refl
affected_chip_eq (some (pos (suc n))) = refl

optional-AreAlike :
    (b : Bool) (s t : Text) → AreAlike s t → AreAlike (if b then s else []) (if b then t else [])
optional-AreAlike true s t h = h
optional-AreAlike false s t h = AreAlike-refl []

pub affected_chip-AreAlike :
    (o o' : Option ℤ)
    → has_affected o ≡ has_affected o'
    → AreAlike (affected_chip o) (affected_chip o')
unfolding codes keep_if
affected_chip-AreAlike o o' e =
    rw (affected_chip_eq o, affected_chip_eq o', e)
      (optional-AreAlike (has_affected o') _ _ (
        stat_chip-AreAlike (shown_number o) (shown_number o') "row affected" "rows affected" refl
          refl))

pub truncated_chip-AreAlike :
    (o o' : Option Bool) → is_true o ≡ is_true o' → AreAlike (truncated_chip o) (truncated_chip o')
unfolding truncated_chip
truncated_chip-AreAlike none none e = AreAlike-refl []
truncated_chip-AreAlike none (some false) e = AreAlike-refl []
truncated_chip-AreAlike (some false) none e = AreAlike-refl []
truncated_chip-AreAlike (some false) (some false) e = AreAlike-refl []
truncated_chip-AreAlike (some true) (some true) e = AreAlike-refl _
truncated_chip-AreAlike _ _ e = cc

pub or_no_data_alike : (s t : Text) → AreAlike s t → marks (or_no_data s) ≡ marks (or_no_data t)
unfolding or_no_data
or_no_data_alike [] [] h = refl
or_no_data_alike [] (d ∷ t) h = (let e = h.same_empty in cc)
or_no_data_alike (c ∷ s) [] h = (let e = h.same_empty in cc)
or_no_data_alike (c ∷ s) (d ∷ t) h = h.same_marks

pub summary_alike : (s t : Text) → marks s ≡ marks t → marks (summary s) ≡ marks (summary t)
unfolding summary
summary_alike s t h =
    same_behind (codes "<div class=\"result-summary\">") _ _
      (same_before s t (codes "</div>") (codes "</div>") h refl)
