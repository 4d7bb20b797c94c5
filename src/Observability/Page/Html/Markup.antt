-- ===== src/Observability/Page/Html/Markup.antt =====
-- The markup of a card is decided by the shape of its entry.
use sql_gateway_poc.Base.{ℕ, List, [], ◌∷◌, ◌++◌, ◌≡◌, refl, sym, ap, ◌∙◌, keep_if, All, arith}
use sql_gateway_poc.Base.Text.{Text, codes}
use sql_gateway_poc.Base.Decimal.{decimal, IsDigit, decimal-IsDigit}
use sql_gateway_poc.Core.Dtos.{DecisionEnum, allowed, rejected, db_error}
use sql_gateway_poc.Core.Entry.{ObservabilityEntryDto}
use sql_gateway_poc.Observability.Page.{escape_html}
use sql_gateway_poc.Observability.Page.Labels.{OutcomeLabel, outcome_for, derive_description}
use sql_gateway_poc.Observability.Page.Titles.{derive_title}
use sql_gateway_poc.Observability.Page.Html.{
  build_compact_result_html, compact_for, pad_start_2, Piece, fixed, shown, raw, fill_in,
  duration_text, card_top, card_bottom, build_card_html,
}
use sql_gateway_poc.Observability.Page.Html.Marks.{
  marks, marks-append, marks-escape_html, marks-IsInert, IsDigit-IsInert, AreAlike-append,
}
use sql_gateway_poc.Observability.Page.Html.Shapes.{
  SameShape, same_behind, same_before, part_alike, rows_chip-AreAlike, columns_chip-AreAlike,
  affected_chip-AreAlike, truncated_chip-AreAlike, or_no_data_alike, summary_alike,
}

module _ (e f : ObservabilityEntryDto) (same : SameShape e f) where
  compact_alike : (d : DecisionEnum) → marks (compact_for d e) ≡ marks (compact_for d f)
  unfolding compact_for
  compact_alike allowed = summary_alike _ _ (
      or_no_data_alike _ _ (
        AreAlike-append _ _ _ _ (rows_chip-AreAlike e.rows_returned f.rows_returned same.rows) (
          AreAlike-append _ _ _ _ (columns_chip-AreAlike e.columns f.columns same.columns) (
            AreAlike-append _ _ _ _
              (affected_chip-AreAlike e.rows_affected f.rows_affected same.affected)
              (truncated_chip-AreAlike e.rows_were_truncated f.rows_were_truncated
                same.truncated)))))
  compact_alike rejected = summary_alike _ _ (
      same_before _ _ _ _ (part_alike "<span class=\"reason-chip\">" "</span>" _ _ same.code) (
        same_behind (codes "<p class=\"result-message\">") _ _ (
          same_before _ _ _ _ (marks-escape_html _ ∙ sym (marks-escape_html _)) (
            same_behind (codes "</p>") _ _ (
              part_alike "<p class=\"result-detail\">detail: <code>" "</code></p>" _ _
                same.detail)))))
  compact_alike db_error = summary_alike _ _ (
      same_before _ _ _ _
        (part_alike "<span class=\"reason-chip\">SQLSTATE " "</span>" _ _ same.db_code)
        (part_alike "<p class=\"result-message\">" "</p>" _ _ same.db_message))

-- The marks of a template: its own, and those of the values that it does not escape.
marks_of : List Piece → Text
marks_of [] = []
marks_of (fixed s ∷ pieces) = marks (codes s) ++ marks_of pieces
marks_of (shown value ∷ pieces) = marks_of pieces
marks_of (raw value ∷ pieces) = marks value ++ marks_of pieces

marks-fill_in : (pieces : List Piece) → marks (fill_in pieces) ≡ marks_of pieces
unfolding fill_in marks_of keep_if
marks-fill_in [] = refl
marks-fill_in (fixed s ∷ pieces) =
    rw (marks-append (codes s) (fill_in pieces), marks-fill_in pieces) refl
marks-fill_in (shown value ∷ pieces) =
    rw (marks-append (escape_html value) (fill_in pieces), marks-escape_html value)
      (marks-fill_in pieces)
marks-fill_in (raw value ∷ pieces) =
    rw (marks-append value (fill_in pieces), marks-fill_in pieces) refl

pad-IsDigit : (s : Text) → All IsDigit s → All IsDigit (pad_start_2 s)
unfolding pad_start_2
pad-IsDigit [] h = ((omega arith, omega arith), ((omega arith, omega arith), tt))
pad-IsDigit (c ∷ []) h = ((omega arith, omega arith), h)
pad-IsDigit (c ∷ d ∷ s) h = h

marks-pad_start_2 : (n : ℕ) → marks (pad_start_2 (decimal n)) ≡ []
marks-pad_start_2 n =
    marks-IsInert (pad_start_2 (decimal n))
      (IsDigit-IsInert (pad_start_2 (decimal n)) (pad-IsDigit (decimal n) (decimal-IsDigit n)))

top_alike :
    (e f : ObservabilityEntryDto) (i j : ℕ) (o : OutcomeLabel)
    (title title' description description' duration duration' : Text)
    → marks_of (card_top e i o title description duration)
      ≡ marks_of (card_top f j o title' description' duration')
unfolding marks_of card_top
top_alike e f i j o title title' description description' duration duration' =
    rw (marks-pad_start_2 i, marks-pad_start_2 j) refl

bottom_alike :
    (compact compact' raw_json raw_json' : Text)
    → marks compact ≡ marks compact'
    → marks_of (card_bottom compact raw_json) ≡ marks_of (card_bottom compact' raw_json')
unfolding marks_of card_bottom
bottom_alike compact compact' raw_json raw_json' h = rw h refl

-- Two entries with the same decision and the same optional parts, whatever the texts, numbers and
-- rows in them and wherever the cards stand, have cards whose markup has the same < > " ' in the
-- same order: no text of an entry opens a tag or leaves an attribute.
pub build_card_html_alike :
    (to_fixed_1 : ℕ → Text) (stringify : ObservabilityEntryDto → Text) (e f : ObservabilityEntryDto)
    (i j : ℕ)
    → SameShape e f
    → marks (build_card_html to_fixed_1 stringify e i)
      ≡ marks (build_card_html to_fixed_1 stringify f j)
unfolding build_card_html build_compact_result_html
build_card_html_alike to_fixed_1 stringify e f i j same =
    same_before _ _ _ _
      (marks-fill_in _
        ∙ top_alike e f i j (outcome_for e.decision) _ _ _ _ _ _
        ∙ ap
            (λ d. marks_of (
              card_top f j (outcome_for d) (derive_title f.redacted_query) (derive_description f)
                (duration_text to_fixed_1 stringify f.duration_ms)))
            same.decision
        ∙ sym (marks-fill_in _))
      (marks-fill_in _
        ∙ bottom_alike _ _ _ _
            (ap (λ d. marks (compact_for d e)) same.decision ∙ compact_alike e f same f.decision)
        ∙ sym (marks-fill_in _))
