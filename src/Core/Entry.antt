-- ===== src/Core/Entry.antt =====
-- The observability entry and its serialised form.
-- core/ports/outbound/observability_entry_dto.py
pub mod Privacy
use sql_gateway_poc.Base.{
  ℕ, Bool, true, false, Option, none, some, List, [], ◌∷◌, String, if◌then◌else◌,
}
use sql_gateway_poc.Base.Text.{Text}
use sql_gateway_poc.Base.Dict.{Dict, remove}
use sql_gateway_poc.Core.Values.{ℤ, Cell}
use sql_gateway_poc.Core.Dtos.{DecisionEnum}

pub record ObservabilityEntryDto : Type 0 where
  pub request_id : Text
  pub decision : DecisionEnum
  pub redacted_query : Text
  pub rejection_code : Option String
  pub rejection_detail : Option Text
  pub db_error_message : Option Text
  pub db_error_code : Option Text
  pub duration_ms : Option ℕ
  pub rows_affected : Option ℤ
  pub rows_returned : Option ℕ
  pub columns : Option (List Text)
  pub rows : Option (List (List Cell))
  pub rows_were_truncated : Option Bool
  pub timestamp : Text

-- The entry with the fields that a caller has to give; the others have their default, None.
abbrev pub entry : Text → DecisionEnum → Text → Text → ObservabilityEntryDto
entry request_id decision redacted_query timestamp = record {
  request_id = request_id;
  decision = decision;
  redacted_query = redacted_query;
  rejection_code = none;
  rejection_detail = none;
  db_error_message = none;
  db_error_code = none;
  duration_ms = none;
  rows_affected = none;
  rows_returned = none;
  columns = none;
  rows = none;
  rows_were_truncated = none;
  timestamp = timestamp;
}

-- The values of a payload, by the types of the fields.
pub data PayloadValue : Type 0 where
  string : Text → PayloadValue
  code : String → PayloadValue
  verdict : DecisionEnum → PayloadValue
  amount : ℕ → PayloadValue
  int : ℤ → PayloadValue
  names : List Text → PayloadValue
  table : List (List Cell) → PayloadValue
  flag : Bool → PayloadValue

-- Adds an item of the dict comprehension, unless its value is None.
add_item :
    {A : Type 0} → String → (A → PayloadValue) → Option A → Dict PayloadValue → Dict PayloadValue
add_item key wrap none payload = payload
add_item key wrap (some value) payload = (key, wrap value) ∷ payload

-- {key: value for key, value in asdict(self).items() if value is not None}
present_fields : ObservabilityEntryDto → Dict PayloadValue
unfolding add_item
present_fields e =
    ("request_id", string e.request_id)
    ∷ ("decision", verdict e.decision)
    ∷ ("redacted_query", string e.redacted_query)
    ∷ add_item "rejection_code" code e.rejection_code (
        add_item "rejection_detail" string e.rejection_detail (
          add_item "db_error_message" string e.db_error_message (
            add_item "db_error_code" string e.db_error_code (
              add_item "duration_ms" amount e.duration_ms (
                add_item "rows_affected" int e.rows_affected (
                  add_item "rows_returned" amount e.rows_returned (
                    add_item "columns" names e.columns (
                      add_item "rows" table e.rows (
                        add_item "rows_were_truncated" flag e.rows_were_truncated
                          (("timestamp", string e.timestamp) ∷ []))))))))))

unfoldable pub to_json_payload : ObservabilityEntryDto → Bool → Dict PayloadValue
unfolding present_fields remove
to_json_payload e include_result_data =
    if include_result_data
    then present_fields e
    else remove "columns" (remove "rows" (present_fields e))
