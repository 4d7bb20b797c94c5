-- ===== src/Http/Routes/Declared.antt =====
-- The answers have the models that their routes declare.
use sql_gateway_poc.Base.{ℕ, ◌⊎◌, Option, none, some, ◌≡◌, refl, inl, inr, All}
use sql_gateway_poc.Base.Adds.{Some}
use sql_gateway_poc.Base.Exec.{Exception, Outcome, returned, raised, assertion_error}
use sql_gateway_poc.Core.Dtos.{
  DecisionEnum, allowed, rejected, db_error, ExecuteQueryResultDto, ValidationResultDto,
  QueryOutcomeDto,
}
use sql_gateway_poc.Http.Response.{JsonResponse, json_response}
use sql_gateway_poc.Http.Response.Rendering.{IsRefusal, Renders}
use sql_gateway_poc.Http.Gateway.Json.{IsJson, render_error-Renders}
use sql_gateway_poc.Http.Gateway.{
  QueryResponse, rejected_body, allowed_body, db_error_body, render_error, respond, build_response,
  build_rejected_response, build_allowed_response, build_db_error_response,
}
use sql_gateway_poc.Http.Probes.{ReadinessResponse}
use sql_gateway_poc.Http.Routes.{
  ResponseModel, query_allowed, query_rejected, query_database_error, readiness, readiness_endpoint,
  gateway_routes, probes_routes, declared_model,
}

abbrev pub model_of : QueryResponse → ResponseModel
model_of (rejected_body b) = query_rejected
model_of (allowed_body b) = query_allowed
model_of (db_error_body b) = query_database_error

-- Each route of the controller declares the model of the body for the status of the answer.
abbrev pub IsDeclared : JsonResponse QueryResponse → Type 0
IsDeclared answer =
    All (λ r. declared_model r answer.status_code ≡ some (model_of answer.content)) gateway_routes

abbrev pub IsDeclaredOnReturn : Outcome (JsonResponse QueryResponse) → Type 0
IsDeclaredOnReturn (returned answer) = IsDeclared answer
IsDeclaredOnReturn (raised e) = (e ≡ assertion_error) ⊎ IsRefusal e

json_response-IsDeclared :
    (status : ℕ) (content : QueryResponse) (o : Option Exception)
    → IsDeclared (record { status_code = status; content = content })
    → Renders (IsJson content) o
    → IsDeclaredOnReturn (json_response status content o)
unfolding json_response
json_response-IsDeclared status content none d h = d
json_response-IsDeclared status content (some e) d h = inr h.1

respond-IsDeclared :
    (status : ℕ) (content : QueryResponse)
    → IsDeclared (record { status_code = status; content = content })
    → IsDeclaredOnReturn (respond status content)
unfolding respond
respond-IsDeclared status content d =
    json_response-IsDeclared status content (render_error content) d (render_error-Renders content)

module _ (r : ExecuteQueryResultDto) where
  rejected-IsDeclared :
      (o : Option ValidationResultDto)
      → r.validation_result ≡ o
      → IsDeclaredOnReturn (build_rejected_response r)
  unfolding build_rejected_response
  rejected-IsDeclared none e = rw e (inl refl)
  rejected-IsDeclared (some v) e = rw e (respond-IsDeclared _ _ (refl, tt))

  allowed-IsDeclared :
      (o : Option QueryOutcomeDto)
      → r.query_outcome ≡ o
      → IsDeclaredOnReturn (build_allowed_response r)
  unfolding build_allowed_response
  allowed-IsDeclared none e = rw e (inl refl)
  allowed-IsDeclared (some v) e = rw e (respond-IsDeclared _ _ (refl, tt))

  db_error-IsDeclared :
      (o : Option QueryOutcomeDto)
      → r.query_outcome ≡ o
      → IsDeclaredOnReturn (build_db_error_response r)
  unfolding build_db_error_response
  db_error-IsDeclared none e = rw e (inl refl)
  db_error-IsDeclared (some v) e = rw e (respond-IsDeclared _ _ (refl, tt))

  by_decision : (d : DecisionEnum) → r.decision ≡ d → IsDeclaredOnReturn (build_response r)
  unfolding build_response
  by_decision rejected e = rw e (rejected-IsDeclared r.validation_result refl)
  by_decision allowed e = rw e (allowed-IsDeclared r.query_outcome refl)
  by_decision db_error e = rw e (db_error-IsDeclared r.query_outcome refl)

pub response-IsDeclared : (r : ExecuteQueryResultDto) → IsDeclaredOnReturn (build_response r)
response-IsDeclared r = by_decision r r.decision refl

-- A route of the probes for the readiness endpoint declares its model for the status.
abbrev pub IsReadinessDeclared : JsonResponse ReadinessResponse → Type 0
IsReadinessDeclared answer =
    Some
      (λ r.
        (r.endpoint ≡ readiness_endpoint) × (declared_model r answer.status_code ≡ some readiness))
      probes_routes
