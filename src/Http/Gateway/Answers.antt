-- ===== src/Http/Gateway/Answers.antt =====
-- The responses answer the results of the use case.
use sql_gateway_poc.Base.{ℕ, Option, none, some, ◌≡◌, refl, subst}
use sql_gateway_poc.Base.Text.{Text}
use sql_gateway_poc.Base.Exec.{Exception, Outcome, returned, raised}
use sql_gateway_poc.Core.Values.{QueryPayload}
use sql_gateway_poc.Core.Dtos.{
  DecisionEnum, allowed, rejected, db_error, ExecuteQueryResultDto, QueryOutcomeDto,
  ValidationResultDto,
}
use sql_gateway_poc.Core.Ports.{AccessGuard, ObservabilityRecorder, Clocks}
use sql_gateway_poc.UseCases.ExecuteQuery.{execute}
use sql_gateway_poc.UseCases.ExecuteQuery.Results.{Carries, OnReturn, execute-IsConsistent}
use sql_gateway_poc.Http.Response.{ok, bad_request, bad_gateway, JsonResponse, json_response}
use sql_gateway_poc.Http.Gateway.Json.{IsJson, render_error-Renders}
use sql_gateway_poc.Http.Response.Rendering.{IsRefusal, Renders}
use sql_gateway_poc.Http.Gateway.{
  QueryResponse, rejected_body, allowed_body, db_error_body, or_empty, humanise_rejection,
  render_error, respond, build_rejected_response, build_allowed_response, build_db_error_response,
  build_response,
}

abbrev pub status_for : DecisionEnum → ℕ
status_for rejected = bad_request
status_for allowed = ok
status_for db_error = bad_gateway

abbrev decision_of : QueryResponse → DecisionEnum
decision_of (rejected_body _) = rejected
decision_of (allowed_body _) = allowed
decision_of (db_error_body _) = db_error

abbrev id_of : QueryResponse → Text
id_of (rejected_body b) = b.request_id
id_of (allowed_body b) = b.request_id
id_of (db_error_body b) = b.request_id

-- The body passes on what the result carries.
abbrev PassesOn : QueryResponse → ExecuteQueryResultDto → Type 0
PassesOn (rejected_body b) r =
    (v : ValidationResultDto) × (r.validation_result ≡ some v)
    × (b.reason ≡ or_empty v.rejection_code)
    × (b.detail ≡ v.rejection_detail)
PassesOn (allowed_body b) r =
    (o : QueryOutcomeDto) × (r.query_outcome ≡ some o)
    × (b.result.columns ≡ o.columns)
    × (b.result.rows ≡ o.rows)
    × (b.result.rows_affected ≡ o.rows_affected)
    × (b.result.truncated ≡ o.rows_were_truncated)
PassesOn (db_error_body b) r =
    (o : QueryOutcomeDto) × (r.query_outcome ≡ some o)
    × (b.reason ≡ o.error_message)
    × (b.error_code ≡ o.error_code)

pub record Answers (r : ExecuteQueryResultDto) (answer : JsonResponse QueryResponse) : Type 0 where
  pub statuses : answer.status_code ≡ status_for r.decision
  pub decisions : decision_of answer.content ≡ r.decision
  pub ids : id_of answer.content ≡ r.request_id
  pub passes_on : PassesOn answer.content r

-- What comes out is the answer if JSON can hold its body, and else a refusal to render it.
abbrev pub Responds : JsonResponse QueryResponse → Outcome (JsonResponse QueryResponse) → Type 0
Responds answer (returned given) = (given ≡ answer) × IsJson answer.content
Responds answer (raised e) = (¬ IsJson answer.content) × IsRefusal e

abbrev pub IsAnswered : ExecuteQueryResultDto → Type 0
IsAnswered r =
    (answer : JsonResponse QueryResponse) × Answers r answer × Responds answer (build_response r)

json_response-Responds :
    (status : ℕ) (content : QueryResponse) (o : Option Exception)
    → Renders (IsJson content) o
    → Responds (record { status_code = status; content = content }) (json_response status content o)
unfolding json_response
json_response-Responds status content none h = (refl, h)
json_response-Responds status content (some e) h = h

respond-Responds :
    (status : ℕ) (content : QueryResponse)
    → Responds (record { status_code = status; content = content }) (respond status content)
unfolding respond
respond-Responds status content =
    json_response-Responds status content (render_error content) (render_error-Renders content)

rejected-IsAnswered :
    (r : ExecuteQueryResultDto) (v : ValidationResultDto)
    → r.decision ≡ rejected
    → r.validation_result ≡ some v
    → IsAnswered r
unfolding build_response build_rejected_response
rejected-IsAnswered r v d e =
    let answer : JsonResponse QueryResponse = record {
      status_code = bad_request;
      content = rejected_body (record {
        request_id = r.request_id;
        reason = or_empty v.rejection_code;
        message = humanise_rejection (some (or_empty v.rejection_code));
        detail = v.rejection_detail;
      });
    } in
    (
      answer,
      record {
        statuses = rw d refl;
        decisions = rw d refl;
        ids = refl;
        passes_on = (v, e, refl, refl);
      },
      rw (d, e) (respond-Responds answer.status_code answer.content),
    )

allowed-IsAnswered :
    (r : ExecuteQueryResultDto) (o : QueryOutcomeDto)
    → r.decision ≡ allowed
    → r.query_outcome ≡ some o
    → IsAnswered r
unfolding build_response build_allowed_response
allowed-IsAnswered r o d e =
    let answer : JsonResponse QueryResponse = record {
      status_code = ok;
      content = allowed_body (record {
        request_id = r.request_id;
        result = record {
          columns = o.columns;
          rows = o.rows;
          rows_affected = o.rows_affected;
          truncated = o.rows_were_truncated;
        };
      });
    } in
    (
      answer,
      record {
        statuses = rw d refl;
        decisions = rw d refl;
        ids = refl;
        passes_on = (o, e, refl, refl, refl, refl);
      },
      rw (d, e) (respond-Responds answer.status_code answer.content),
    )

db_error-IsAnswered :
    (r : ExecuteQueryResultDto) (o : QueryOutcomeDto)
    → r.decision ≡ db_error
    → r.query_outcome ≡ some o
    → IsAnswered r
unfolding build_response build_db_error_response
db_error-IsAnswered r o d e =
    let answer : JsonResponse QueryResponse = record {
      status_code = bad_gateway;
      content = db_error_body (record {
        request_id = r.request_id;
        reason = o.error_message;
        error_code = o.error_code;
      });
    } in
    (
      answer,
      record {
        statuses = rw d refl;
        decisions = rw d refl;
        ids = refl;
        passes_on = (o, e, refl, refl);
      },
      rw (d, e) (respond-Responds answer.status_code answer.content),
    )

Carries-IsAnswered :
    (r : ExecuteQueryResultDto) (d : DecisionEnum) → r.decision ≡ d → Carries d r → IsAnswered r
Carries-IsAnswered r rejected e (v, p, _) = rejected-IsAnswered r v e p
Carries-IsAnswered r allowed e (o, p, _) = allowed-IsAnswered r o e p
Carries-IsAnswered r db_error e (o, p, _) = db_error-IsAnswered r o e p

settled :
    {S : Type 0} (o : Outcome ExecuteQueryResultDto) (s : S)
    → OnReturn o s
    → OnReturn {S = Unit} o tt
settled (returned r) s h = h
settled (raised e) s h = tt

-- For a result that the use case returns, whatever its ports do, there is an answer: the status
-- code is 400 for a rejection, 200 for an allowed query and 502 for a database error; the body
-- states the decision and the request id, and passes on the code and detail of the verdict or the
-- data of the outcome. The controller returns this answer exactly if JSON can hold its body, that is
-- if no text has a surrogate and no cell is NaN, an infinity or of a class that json.dumps refuses;
-- else it raises ValueError or TypeError. Its assertions hold.
pub execute-IsAnswered :
    {S : Type 0} (guard : AccessGuard S) (recorder : ObservabilityRecorder S) (clocks : Clocks S)
    (max_sample_rows : ℕ) (payload : QueryPayload) (request_id : Text) (s : S)
    (r : ExecuteQueryResultDto)
    → (execute guard recorder clocks max_sample_rows payload request_id s).0 ≡ returned r
    → IsAnswered r
execute-IsAnswered guard recorder clocks max_sample_rows payload request_id s r e =
    let consistent =
      (execute-IsConsistent guard recorder clocks max_sample_rows payload request_id).at s tt in
    Carries-IsAnswered r r.decision refl
      (subst (λ o. OnReturn {S = Unit} o tt) e (settled _ _ consistent))
