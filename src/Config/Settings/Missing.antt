-- ===== src/Config/Settings/Missing.antt =====
-- Which errors a failed load reports for the fields that have no default.
use sql_gateway_poc.Base.{
  ℕ, Option, none, some, List, [], ◌∷◌, ◌++◌, String, ◌≡◌, refl, All, All-append, leb, Bool-cases,
  inl, inr,
}
use sql_gateway_poc.Base.Text.{Text}
use sql_gateway_poc.Core.Values.{ℤ, pos, negsuc}
use sql_gateway_poc.Config.Settings.{
  default_query_timeout_ms, default_max_results, default_max_sample_rows_in_observability,
  Environment, FieldError, missing, too_small, Loaded, loaded, failed, required, at_least,
  errors_of, assemble, create_gateway_settings,
}

abbrev pub IsTooSmall : FieldError → Type 0
IsTooSmall (missing name) = ⊥
IsTooSmall (too_small name) = Unit

-- The error of a field that has no default.
abbrev pub absence : String → Option Text → List FieldError
absence name none = missing name ∷ []
absence name (some value) = []

required-errors : (name : String) (o : Option Text) → errors_of (required name o) ≡ absence name o
required-errors name none = refl
required-errors name (some value) = refl

at_least-IsTooSmall :
    (name : String) (bound default : ℕ) (o : Option ℤ)
    → All IsTooSmall (errors_of (at_least name bound default o))
at_least-IsTooSmall name bound default none = tt
at_least-IsTooSmall name bound default (some (negsuc n)) = (tt, tt)
at_least-IsTooSmall name bound default (some (pos n)) = elim (Bool-cases (leb bound n)) [
  | inl enough ↦ rw enough tt
  | inr less ↦ rw less (tt, tt)
]

assemble-failed :
    (adapter url : Loaded Text) (timeout results samples : Loaded ℕ) (path : Option Text)
    (errors : List FieldError)
    → assemble adapter url timeout results samples path ≡ failed errors
    → errors
      ≡ errors_of adapter
        ++ (errors_of url ++ (errors_of timeout ++ (errors_of results ++ errors_of samples)))
assemble-failed (loaded adapter) (loaded url) (loaded timeout) (loaded results) (loaded samples)
      path errors e =
    cc
assemble-failed (failed a) _ _ _ _ path errors e = cc
assemble-failed _ (failed a) _ _ _ path errors e = cc
assemble-failed _ _ (failed a) _ _ path errors e = cc
assemble-failed _ _ _ (failed a) _ path errors e = cc
assemble-failed _ _ _ _ (failed a) path errors e = cc

-- The errors are those of the absent variables and then errors of bounds.
pub create_gateway_settings-failed :
    (e : Environment) (errors : List FieldError)
    → create_gateway_settings e ≡ failed errors
    → (small : List FieldError) × All IsTooSmall small
      × (errors
          ≡ absence "database_adapter" e.database_adapter
            ++ (absence "database_url" e.database_url ++ small))
unfolding create_gateway_settings
create_gateway_settings-failed e errors h =
    let timeout = at_least "query_timeout_ms" 1 default_query_timeout_ms e.query_timeout_ms in
    let results = at_least "max_results" 1 default_max_results e.max_results in
    let samples =
      at_least "max_sample_rows_in_observability" 0 default_max_sample_rows_in_observability
        e.max_sample_rows_in_observability in
    (
      errors_of timeout ++ (errors_of results ++ errors_of samples),
      All-append IsTooSmall (errors_of timeout) (errors_of results ++ errors_of samples)
          (at_least-IsTooSmall _ _ _ e.query_timeout_ms)
          (All-append IsTooSmall (errors_of results) (errors_of samples)
            (at_least-IsTooSmall _ _ _ e.max_results)
            (at_least-IsTooSmall _ _ _ e.max_sample_rows_in_observability)),
      rw
          (
            ← required-errors "database_adapter" e.database_adapter,
            ← required-errors "database_url" e.database_url,
          )
          (assemble-failed _ _ _ _ _ e.observability_jsonl_path errors h),
    )
