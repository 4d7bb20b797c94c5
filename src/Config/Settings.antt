-- ===== src/Config/Settings.antt =====
-- The settings that the environment gives, once pydantic has read each value as its type.
-- infrastructure/config/settings.py
pub mod Bounds
pub mod Missing
use sql_gateway_poc.Base.{
  ℕ, Bool, Option, none, some, List, [], ◌∷◌, ◌++◌, String, leb, if◌then◌else◌,
}
use sql_gateway_poc.Base.Text.{Text}
use sql_gateway_poc.Core.Values.{ℤ, pos, negsuc}

abbrev pub default_query_timeout_ms : ℕ
default_query_timeout_ms = 5000

abbrev pub default_max_results : ℕ
default_max_results = 1000

abbrev pub default_max_sample_rows_in_observability : ℕ
default_max_sample_rows_in_observability = 20

-- The values of the environment, `none` where one is absent.
pub record Environment : Type 0 where
  pub database_adapter : Option Text
  pub database_url : Option Text
  pub query_timeout_ms : Option ℤ
  pub max_results : Option ℤ
  pub max_sample_rows_in_observability : Option ℤ
  pub observability_jsonl_path : Option Text

pub record GatewaySettings : Type 0 where
  pub database_adapter : Text
  pub database_url : Text
  pub query_timeout_ms : ℕ
  pub max_results : ℕ
  pub max_sample_rows_in_observability : ℕ
  pub observability_jsonl_path : Option Text

-- An error of a ValidationError: the field is absent, or less than its bound.
pub data FieldError : Type 0 where
  missing too_small : String → FieldError

pub data Loaded (A : Type 0) : Type 0 where
  loaded : A → Loaded A
  failed : List FieldError → Loaded A

-- Field(...)
abbrev required : String → Option Text → Loaded Text
required name none = failed (missing name ∷ [])
required name (some t) = loaded t

-- Field(default=default, ge=bound)
abbrev at_least : String → ℕ → ℕ → Option ℤ → Loaded ℕ
at_least name bound default none = loaded default
at_least name bound default (some (negsuc n)) = failed (too_small name ∷ [])
at_least name bound default (some (pos n)) =
    if leb bound n then loaded n else failed (too_small name ∷ [])

abbrev errors_of : {A : Type 0} → Loaded A → List FieldError
errors_of (loaded a) = []
errors_of (failed errors) = errors

-- The model, unless a field has an error; all errors are reported.
abbrev assemble :
    Loaded Text
    → Loaded Text
    → Loaded ℕ
    → Loaded ℕ
    → Loaded ℕ
    → Option Text
    → Loaded GatewaySettings
assemble (loaded adapter) (loaded url) (loaded timeout) (loaded results) (loaded samples) path =
    loaded (record {
      database_adapter = adapter;
      database_url = url;
      query_timeout_ms = timeout;
      max_results = results;
      max_sample_rows_in_observability = samples;
      observability_jsonl_path = path;
    })
assemble adapter url timeout results samples path = failed (
    errors_of adapter
    ++ (errors_of url ++ (errors_of timeout ++ (errors_of results ++ errors_of samples))))

-- GatewaySettings()
unfoldable pub create_gateway_settings : Environment → Loaded GatewaySettings
create_gateway_settings e =
    assemble (required "database_adapter" e.database_adapter)
      (required "database_url" e.database_url)
      (at_least "query_timeout_ms" 1 default_query_timeout_ms e.query_timeout_ms)
      (at_least "max_results" 1 default_max_results e.max_results)
      (at_least "max_sample_rows_in_observability" 0 default_max_sample_rows_in_observability
        e.max_sample_rows_in_observability)
      e.observability_jsonl_path
