-- ===== src/Http/Gateway.antt =====
-- POST /query: the request model, the endpoint, and the three responses.
-- application/controllers/http/gateway
pub mod Json
pub mod Answers
pub mod Messages
pub mod Requests
use text.Mathlib.Text.{◌==◌ as str_eq}
use sql_gateway_poc.Base.{
  ℕ, Bool, true, false, Option, none, some, List, [], ◌∷◌, String, if◌then◌else◌, ltb, length,
}
use sql_gateway_poc.Base.Text.{Text}
use sql_gateway_poc.Base.Dict.{Dict, lookup}
use sql_gateway_poc.Base.Exec.{
  Exec, Exception, Outcome, returned, raised, assertion_error, ◌>>=◌, settle,
}
use sql_gateway_poc.Core.Values.{ℤ, Cell, QueryPayload, str, dict, list, nil, item, end, field}
use sql_gateway_poc.Core.Dtos.{
  allowed, rejected, db_error, ValidationResultDto, QueryOutcomeDto, ExecuteQueryResultDto,
}
use sql_gateway_poc.Core.Ports.{AccessGuard, ObservabilityRecorder, Clocks}
use sql_gateway_poc.UseCases.ExecuteQuery.{execute}
use sql_gateway_poc.Http.Response.{
  ok, bad_request, bad_gateway, JsonResponse, text_error, cell_error, or_error, first_error,
  json_response,
}

abbrev pub min_query_text_length : ℕ
min_query_text_length = 1

abbrev pub max_query_text_length : ℕ
max_query_text_length = 64000

-- What the validator of a field returns, or the text of its ValueError.
pub data Checked : Type 0 where
  accepted : QueryPayload → Checked
  value_error : String → Checked

-- QueryRequest._reject_empty_and_oversize
unfoldable pub reject_empty_and_oversize : QueryPayload → Checked
reject_empty_and_oversize (str value) =
    if ltb (length value) min_query_text_length
    then value_error "query_text string must not be empty"
    else if ltb max_query_text_length (length value)
    then value_error "query_text string must be at most 64000 chars"
    else accepted (str value)
reject_empty_and_oversize (dict end) = value_error "query_text object or array must not be empty"
reject_empty_and_oversize (dict (field key value rest)) = accepted (dict (field key value rest))
reject_empty_and_oversize (list nil) = value_error "query_text object or array must not be empty"
reject_empty_and_oversize (list (item value rest)) = accepted (list (item value rest))

pub record QueryRejectedResponse : Type 0 where
  pub request_id : Text
  pub reason : String
  pub message : String
  pub detail : Option Text

pub record QueryResultPayload : Type 0 where
  pub columns : List Text
  pub rows : List (List Cell)
  pub rows_affected : Option ℤ
  pub truncated : Bool

pub record QueryAllowedResponse : Type 0 where
  pub request_id : Text
  pub result : QueryResultPayload

pub record QueryDatabaseErrorResponse : Type 0 where
  pub request_id : Text
  pub reason : Option Text
  pub error_code : Option Text

-- The body; its constructor is the `status` of the model.
pub data QueryResponse : Type 0 where
  rejected_body : QueryRejectedResponse → QueryResponse
  allowed_body : QueryAllowedResponse → QueryResponse
  db_error_body : QueryDatabaseErrorResponse → QueryResponse

-- _REJECTION_MESSAGES
abbrev pub rejection_messages : Dict String
rejection_messages =
    ("empty_query", "The query was empty.")
    ∷ ("parse_error", "The query could not be parsed.")
    ∷ ("multi_statement", "Multiple statements in one request are not allowed.")
    ∷ (
      "root_not_allowed",
      "Only SELECT, INSERT, UPDATE, or DELETE are allowed at the statement root.",
    )
    ∷ (
      "forbidden_construct",
      "DDL or transaction-control statements are not allowed anywhere in the tree.",
    )
    ∷ ("select_into", "SELECT ... INTO new_table is not allowed.")
    ∷ ("data_modifying_cte", "CTEs that INSERT, UPDATE, or DELETE are not allowed.")
    ∷ ("unbounded_write", "UPDATE and DELETE must include a WHERE clause.")
    ∷ (
      "dangerous_function",
      "The query uses a filesystem, process, or network function that is blocked.",
    )
    ∷ (
      "payload_type_mismatch",
      "The query payload shape does not match the selected database adapter.",
    )
    ∷ []

-- _humanise_rejection
unfoldable pub humanise_rejection : Option String → String
unfolding lookup
humanise_rejection none = "Query rejected."
humanise_rejection (some code) =
    if str_eq code ""
    then "Query rejected."
    else elim (lookup code rejection_messages) [ none ↦ "Query rejected." | some message ↦ message ]

-- `rejection_code or ""`
abbrev pub or_empty : Option String → String
or_empty none = ""
or_empty (some code) = code

unfoldable pub optional_text_error : Option Text → Option Exception
unfolding text_error
optional_text_error none = none
optional_text_error (some t) = text_error t

-- What the rendering of a body raises; the codes and the messages are of ASCII letters.
unfoldable pub render_error : QueryResponse → Option Exception
unfolding or_error first_error text_error cell_error optional_text_error
render_error (rejected_body b) = or_error (text_error b.request_id) (optional_text_error b.detail)
render_error (allowed_body b) = or_error (text_error b.request_id) (
    or_error (first_error text_error b.result.columns)
      (first_error (first_error cell_error) b.result.rows))
render_error (db_error_body b) =
    or_error (text_error b.request_id)
      (or_error (optional_text_error b.reason) (optional_text_error b.error_code))

-- JSONResponse(status_code=status, content=payload.model_dump())
unfoldable pub respond : ℕ → QueryResponse → Outcome (JsonResponse QueryResponse)
unfolding json_response
respond status payload = json_response status payload (render_error payload)

unfoldable pub build_rejected_response :
    ExecuteQueryResultDto → Outcome (JsonResponse QueryResponse)
unfolding humanise_rejection
build_rejected_response result = elim result.validation_result [
  | none ↦ raised assertion_error
  | some validation_result ↦
      let rejection_code = or_empty validation_result.rejection_code in
      respond bad_request (
        rejected_body (record {
          request_id = result.request_id;
          reason = rejection_code;
          message = humanise_rejection (some rejection_code);
          detail = validation_result.rejection_detail;
        }))
]

unfoldable pub build_allowed_response : ExecuteQueryResultDto → Outcome (JsonResponse QueryResponse)
build_allowed_response result = elim result.query_outcome [
  | none ↦ raised assertion_error
  | some outcome ↦ respond ok (
      allowed_body (record {
        request_id = result.request_id;
        result = record {
          columns = outcome.columns;
          rows = outcome.rows;
          rows_affected = outcome.rows_affected;
          truncated = outcome.rows_were_truncated;
        };
      }))
]

unfoldable pub build_db_error_response :
    ExecuteQueryResultDto → Outcome (JsonResponse QueryResponse)
build_db_error_response result = elim result.query_outcome [
  | none ↦ raised assertion_error
  | some outcome ↦ respond bad_gateway (
      db_error_body (record {
        request_id = result.request_id;
        reason = outcome.error_message;
        error_code = outcome.error_code;
      }))
]

unfoldable pub build_response : ExecuteQueryResultDto → Outcome (JsonResponse QueryResponse)
unfolding build_rejected_response build_allowed_response build_db_error_response
build_response result = elim result.decision [
  | rejected ↦ build_rejected_response result
  | allowed ↦ build_allowed_response result
  | db_error ↦ build_db_error_response result
]

-- _execute_query_endpoint, for a request that passed the checks; `new_uuid` is str(uuid.uuid4()).
unfoldable pub execute_query_endpoint :
    {S : Type 0}
    → AccessGuard S
    → ObservabilityRecorder S
    → Clocks S
    → ℕ
    → Exec S Text
    → QueryPayload
    → Exec S (JsonResponse QueryResponse)
execute_query_endpoint guard recorder clocks max_sample_rows new_uuid query_text = do
  request_id ← new_uuid
  result ← execute guard recorder clocks max_sample_rows query_text request_id
  settle (build_response result)
