-- ===== src/Observability/Page/Labels.antt =====
-- What a card of the live page says of an entry.
-- application/controllers/http/observability/observability_http_controller.py
use sql_gateway_poc.Base.{
  ℕ, zero, suc, Bool, true, false, Option, none, some, List, [], ◌∷◌, ◌++◌, String, ◌≡◌, refl, ◌==◌,
  if◌then◌else◌, length,
}
use sql_gateway_poc.Base.Text.{Text, codes, is_empty}
use sql_gateway_poc.Base.Decimal.{decimal}
use sql_gateway_poc.Core.Values.{ℤ, pos, negsuc}
use sql_gateway_poc.Core.Dtos.{DecisionEnum, allowed, rejected, db_error}
use sql_gateway_poc.Core.Entry.{ObservabilityEntryDto}
use sql_gateway_poc.Http.Gateway.Answers.{status_for}
use sql_gateway_poc.Observability.Page.Messages.{humanise_rejection_on_page}

-- What outcomeFor gives, for a decision of the gateway; U+00B7 stands before the status code.
pub record OutcomeLabel : Type 0 where
  pub kind : DecisionEnum
  pub label : Text
  pub icon : Text

unfoldable pub outcome_for : DecisionEnum → OutcomeLabel
outcome_for allowed = record {
  kind = allowed;
  label = codes "Allowed · 200";
  icon = codes "check_circle";
}
outcome_for rejected = record {
  kind = rejected;
  label = codes "Rejected · 400";
  icon = codes "block";
}
outcome_for db_error = record {
  kind = db_error;
  label = codes "DB error · 502";
  icon = codes "error";
}

-- pluralise
unfoldable pub pluralise : ℕ → Text → Text
pluralise count noun = decimal count ++ 32 ∷ (noun ++ (if count == 1 then [] else b's' ∷ []))

-- parts.push, where the number is neither absent nor 0
push_rows : Option ℕ → List Text → List Text → List Text
unfolding pluralise codes
push_rows none columns parts = parts
push_rows (some zero) columns parts = parts
push_rows (some (suc n)) [] parts = (pluralise (suc n) (codes "row") ++ codes " returned") ∷ parts
push_rows (some (suc n)) (c ∷ columns) parts =
    (pluralise (suc n) (codes "row") ++ codes " returned")
    ∷ pluralise (length (c ∷ columns)) (codes "column")
    ∷ parts

push_affected : Option ℤ → List Text → List Text
unfolding pluralise codes
push_affected (some (pos (suc n))) parts =
    (pluralise (suc n) (codes "row") ++ codes " affected") ∷ parts
push_affected (some (pos zero)) parts = parts
push_affected (some (negsuc n)) parts = parts
push_affected none parts = parts

push_truncated : Option Bool → List Text → List Text
unfolding codes
push_truncated (some true) parts = codes "result truncated" ∷ parts
push_truncated (some false) parts = parts
push_truncated none parts = parts

or_no_columns : Option (List Text) → List Text
or_no_columns none = []
or_no_columns (some columns) = columns

-- parts.join(", ")
join_by_comma : List Text → Text
join_by_comma [] = []
join_by_comma (p ∷ []) = p
join_by_comma (p ∷ q ∷ parts) = p ++ b',' ∷ 32 ∷ join_by_comma (q ∷ parts)

allowed_description : List Text → Text
unfolding codes join_by_comma
allowed_description [] = codes "Allowed. No data returned."
allowed_description (p ∷ parts) = codes "Allowed. " ++ (join_by_comma (p ∷ parts) ++ b'.' ∷ [])

rejected_description : Option String → Text
unfolding codes
rejected_description none = codes "Gateway rejected the query."
rejected_description (some code) =
    if is_empty (codes code)
    then codes "Gateway rejected the query."
    else codes (humanise_rejection_on_page (some code))

db_error_description : Option Text → Text
unfolding codes
db_error_description none = codes "Database returned an error."
db_error_description (some []) = codes "Database returned an error."
db_error_description (some (c ∷ message)) = c ∷ message

-- deriveDescription
unfoldable pub derive_description : ObservabilityEntryDto → Text
unfolding push_rows push_affected push_truncated or_no_columns allowed_description
    rejected_description db_error_description
derive_description e = elim e.decision [
  | allowed ↦ allowed_description (
      push_rows e.rows_returned (or_no_columns e.columns)
        (push_affected e.rows_affected (push_truncated e.rows_were_truncated [])))
  | rejected ↦ rejected_description e.rejection_code
  | db_error ↦ db_error_description e.db_error_message
]

-- categoryLabel
unfoldable pub category_label : DecisionEnum → Text
unfolding codes
category_label allowed = codes "Allowed request"
category_label rejected = codes "Gateway rejection"
category_label db_error = codes "Database error"

-- The label of a card is of the kind of its decision, and ends with the status code with which the
-- gateway answers a result of this decision.
outcome_for_answers :
    (decision : DecisionEnum)
    → ((outcome_for decision).kind ≡ decision)
      × ((prefix : Text) × ((outcome_for decision).label ≡ prefix ++ decimal (status_for decision)))
unfolding outcome_for codes decimal
outcome_for_answers allowed = (refl, (codes "Allowed · ", refl))
outcome_for_answers rejected = (refl, (codes "Rejected · ", refl))
outcome_for_answers db_error = (refl, (codes "DB error · ", refl))
