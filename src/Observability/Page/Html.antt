-- ===== src/Observability/Page/Html.antt =====
-- The markup of a card: buildCard and buildCompactResultHtml of the script of the live page.
-- application/controllers/http/observability/observability_http_controller.py
pub mod Marks
pub mod Shapes
pub mod Markup
use sql_gateway_poc.Base.{
  ℕ, zero, suc, Bool, true, false, Option, none, some, List, [], ◌∷◌, ◌++◌, String, ltb, ◌==◌,
  if◌then◌else◌, length,
}
use sql_gateway_poc.Base.Text.{Text, codes, is_empty}
use sql_gateway_poc.Base.Decimal.{decimal}
use sql_gateway_poc.Core.Values.{ℤ, pos, negsuc}
use sql_gateway_poc.Core.Dtos.{DecisionEnum, allowed, rejected, db_error}
use sql_gateway_poc.Core.Entry.{ObservabilityEntryDto}
use sql_gateway_poc.Observability.Page.{escape_html}
use sql_gateway_poc.Observability.Page.Messages.{humanise_rejection_on_page}
use sql_gateway_poc.Observability.Page.Labels.{
  OutcomeLabel, outcome_for, derive_description, category_label,
}
use sql_gateway_poc.Observability.Page.Titles.{derive_title}

-- chips.push of a number with its noun
stat_chip : ℕ → String → String → Text
unfolding codes decimal
stat_chip n one many =
    codes "<span class=\"stat-chip\"><strong>"
    ++ (decimal n
        ++ (codes "</strong> " ++ (codes (if n == 1 then one else many) ++ codes "</span>")))

pub rows_chip : Option ℕ → Text
unfolding stat_chip
rows_chip none = []
rows_chip (some zero) = []
rows_chip (some (suc n)) = stat_chip (suc n) "row returned" "rows returned"

pub columns_chip : Option (List Text) → Text
unfolding stat_chip
columns_chip none = []
columns_chip (some []) = []
columns_chip (some (c ∷ columns)) = stat_chip (length (c ∷ columns)) "column" "columns"

pub affected_chip : Option ℤ → Text
unfolding stat_chip
affected_chip none = []
affected_chip (some (negsuc n)) = []
affected_chip (some (pos zero)) = []
affected_chip (some (pos (suc n))) = stat_chip (suc n) "row affected" "rows affected"

pub truncated_chip : Option Bool → Text
unfolding codes
truncated_chip none = []
truncated_chip (some false) = []
truncated_chip (some true) = codes "<span class=\"stat-chip\">truncated</span>"

-- if (!chips.length)
pub or_no_data : Text → Text
unfolding codes
or_no_data [] = codes "<span class=\"stat-chip muted\">no data</span>"
or_no_data (c ∷ chips) = c ∷ chips

pub summary : Text → Text
unfolding codes
summary parts = codes "<div class=\"result-summary\">" ++ (parts ++ codes "</div>")

-- A part around an escaped text, unless that is absent or empty.
pub part : String → Option Text → String → Text
unfolding codes
part before none after = []
part before (some []) after = []
part before (some (c ∷ value)) after = codes before ++ (escape_html (c ∷ value) ++ codes after)

abbrev pub text_of : Option String → Option Text
text_of none = none
text_of (some s) = some (codes s)

pub compact_for : DecisionEnum → ObservabilityEntryDto → Text
unfolding summary or_no_data rows_chip columns_chip affected_chip truncated_chip part codes
compact_for allowed entry = summary (
    or_no_data (
      rows_chip entry.rows_returned
      ++ (columns_chip entry.columns
          ++ (affected_chip entry.rows_affected ++ truncated_chip entry.rows_were_truncated))))
compact_for rejected entry = summary (
    part "<span class=\"reason-chip\">" (text_of entry.rejection_code) "</span>"
    ++ (codes "<p class=\"result-message\">"
        ++ (escape_html (codes (humanise_rejection_on_page entry.rejection_code))
            ++ (codes "</p>"
                ++ part "<p class=\"result-detail\">detail: <code>" entry.rejection_detail
                    "</code></p>"))))
compact_for db_error entry = summary (
    part "<span class=\"reason-chip\">SQLSTATE " entry.db_error_code "</span>"
    ++ part "<p class=\"result-message\">" entry.db_error_message "</p>")

unfoldable pub build_compact_result_html : ObservabilityEntryDto → Text
unfolding compact_for
build_compact_result_html entry = compact_for entry.decision entry

-- prettyQuery, of a text
unfoldable pub pretty_query : Text → Text
unfolding codes
pretty_query [] = codes "(empty string)"
pretty_query (c ∷ query) = c ∷ query

-- value.padStart(2, "0")
pub pad_start_2 : Text → Text
pad_start_2 [] = b'0' ∷ b'0' ∷ []
pad_start_2 (c ∷ []) = b'0' ∷ c ∷ []
pad_start_2 (c ∷ d ∷ value) = c ∷ d ∷ value

kind_text : DecisionEnum → Text
unfolding codes
kind_text allowed = codes "allowed"
kind_text rejected = codes "rejected"
kind_text db_error = codes "db_error"

-- A piece of a template: its own text, ${escapeHtml(value)}, or ${value}.
pub data Piece : Type 0 where
  fixed : String → Piece
  shown raw : Text → Piece

unfoldable pub fill_in : List Piece → Text
unfolding codes
fill_in [] = []
fill_in (fixed s ∷ pieces) = codes s ++ fill_in pieces
fill_in (shown value ∷ pieces) = escape_html value ++ fill_in pieces
fill_in (raw value ∷ pieces) = value ++ fill_in pieces

-- The template of a card, up to the result, and from the result on.
card_top : ObservabilityEntryDto → ℕ → OutcomeLabel → Text → Text → Text → List Piece
unfolding category_label kind_text pad_start_2 pretty_query decimal
card_top entry index outcome title description duration =
    fixed "\n          <div class=\"card-row card-top\">"
    ∷ fixed "\n            <span class=\"category\">"
    ∷ shown (category_label entry.decision)
    ∷ fixed "</span>\n            <span class=\"card-index\">#"
    ∷ raw (pad_start_2 (decimal index))
    ∷ fixed "</span>\n          </div>\n          <h3 class=\"card-row card-title\">"
    ∷ shown title
    ∷ fixed "</h3>\n          <p class=\"card-row card-desc\">"
    ∷ shown description
    ∷ fixed "</p>\n          <div class=\"card-row card-meta-row\">"
    ∷ fixed "\n            <span class=\"chip status "
    ∷ raw (kind_text outcome.kind)
    ∷ fixed "\">\n              <span class=\"material-symbols-rounded\">"
    ∷ raw outcome.icon
    ∷ fixed "</span>\n              <span>"
    ∷ shown outcome.label
    ∷ fixed "</span>\n            </span>\n            <span class=\"duration\">"
    ∷ shown duration
    ∷ fixed "</span>\n          </div>"
    ∷ fixed "\n          <div class=\"card-row block query-block\">"
    ∷ fixed "\n            <div class=\"block-heading\">"
    ∷ fixed "\n              <span class=\"material-symbols-rounded\">terminal</span>"
    ∷ fixed "\n              <span>Query</span>\n            </div>"
    ∷ fixed "\n            <pre class=\"query\">"
    ∷ shown (pretty_query entry.redacted_query)
    ∷ fixed "</pre>\n          </div>"
    ∷ fixed "\n          <div class=\"card-row block result-block\">"
    ∷ fixed "\n            <div class=\"block-heading\">"
    ∷ fixed "\n              <span class=\"material-symbols-rounded\">bolt</span>"
    ∷ fixed "\n              <span>Result</span>\n            </div>\n            "
    ∷ []

card_bottom : Text → Text → List Piece
card_bottom compact raw_json =
    raw compact
    ∷ fixed "\n            <details class=\"raw\">\n              <summary>"
    ∷ fixed "\n                <span class=\"material-symbols-rounded\">data_object</span>"
    ∷ fixed "\n                <span>Raw response</span>"
    ∷ fixed "\n                <span class=\"material-symbols-rounded chevron\">expand_more</span>"
    ∷ fixed "\n              </summary>\n              <pre class=\"response\">"
    ∷ shown raw_json
    ∷ fixed "</pre>\n            </details>\n          </div>\n        "
    ∷ []

module _ (to_fixed_1 : ℕ → Text) (stringify : ObservabilityEntryDto → Text) where
  duration_text : Option ℕ → Text
  unfolding codes
  duration_text none = codes "—"
  duration_text (some duration_ms) = to_fixed_1 duration_ms ++ codes " ms"

  -- buildCard: section.innerHTML. `to_fixed_1` is toFixed(1), and `stringify` JSON.stringify with
  -- an indentation of 2.
  unfoldable pub build_card_html : ObservabilityEntryDto → ℕ → Text
  unfolding outcome_for derive_title derive_description duration_text card_top card_bottom
      build_compact_result_html fill_in
  build_card_html entry index =
      fill_in (
        card_top entry index (outcome_for entry.decision) (derive_title entry.redacted_query)
          (derive_description entry) (duration_text entry.duration_ms))
      ++ fill_in (card_bottom (build_compact_result_html entry) (stringify entry))
