-- ===== src/Http/Routes.antt =====
-- The routes that the three controllers register, with the models that they declare for answers.
-- application/controllers/http, the methods _register_routes
pub mod Declared
use sql_gateway_poc.Base.{ℕ, Option, none, some, List, [], ◌∷◌, ◌++◌, String, ◌==◌, if◌then◌else◌}
use sql_gateway_poc.Http.Response.{ok, bad_request, bad_gateway, service_unavailable}

-- The models of response bodies.
pub data ResponseModel : Type 0 where
  query_allowed query_rejected query_database_error health readiness : ResponseModel

-- The methods that answer.
pub data Endpoint : Type 0 where
  execute_query_endpoint health_endpoint readiness_endpoint : Endpoint
  render_observability_page stream_observability_events : Endpoint

-- What add_api_route is told.
pub record ApiRoute : Type 0 where
  pub path : String
  pub endpoint : Endpoint
  pub methods : List String
  pub response_model : Option ResponseModel
  pub responses : List (ℕ × ResponseModel)

-- GatewayHttpController._register_routes
abbrev pub gateway_routes : List ApiRoute
gateway_routes =
    record {
      path = "/query";
      endpoint = execute_query_endpoint;
      methods = "POST" ∷ [];
      response_model = some query_allowed;
      responses = (bad_request, query_rejected) ∷ (bad_gateway, query_database_error) ∷ [];
    }
    ∷ []

-- ProbesHttpController._register_routes
abbrev pub probes_routes : List ApiRoute
probes_routes =
    record {
      path = "/health";
      endpoint = health_endpoint;
      methods = "GET" ∷ [];
      response_model = some health;
      responses = [];
    }
    ∷ record {
      path = "/readiness";
      endpoint = readiness_endpoint;
      methods = "GET" ∷ [];
      response_model = some readiness;
      responses = (service_unavailable, readiness) ∷ [];
    }
    ∷ []

-- ObservabilityHttpController._register_routes
abbrev pub observability_routes : List ApiRoute
observability_routes =
    record {
      path = "/observability";
      endpoint = render_observability_page;
      methods = "GET" ∷ [];
      response_model = none;
      responses = [];
    }
    ∷ record {
      path = "/observability/events";
      endpoint = stream_observability_events;
      methods = "GET" ∷ [];
      response_model = none;
      responses = [];
    }
    ∷ []

abbrev pub model_for : ℕ → List (ℕ × ResponseModel) → Option ResponseModel
model_for status [] = none
model_for status ((code, model) ∷ responses) =
    let rest = model_for status responses in if code == status then some model else rest

-- The model that a route declares for a status: `response_model` for 200, or that in `responses`.
abbrev pub declared_model : ApiRoute → ℕ → Option ResponseModel
declared_model r status = if status == ok then r.response_model else model_for status r.responses
