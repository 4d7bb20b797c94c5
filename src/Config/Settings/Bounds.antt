-- ===== src/Config/Settings/Bounds.antt =====
-- What holds of settings that were loaded.
use sql_gateway_poc.Base.{String, subst, ℕ, ◌≤◌, Option, none, some, ◌≡◌, refl, arith}
use sql_gateway_poc.Base.Text.{Text}
use sql_gateway_poc.Core.Values.{ℤ, pos, negsuc}
use sql_gateway_poc.Config.Settings.{
  default_query_timeout_ms, default_max_results, default_max_sample_rows_in_observability,
  Environment, GatewaySettings, Loaded, loaded, required, at_least, assemble,
  create_gateway_settings,
}

-- The value is the given one, or the default where none is given; and it keeps the bound.
abbrev pub IsTaken : ℕ → ℕ → Option ℤ → ℕ → Type 0
IsTaken bound default none n = n ≡ default
IsTaken bound default (some z) n = (z ≡ pos n) × (bound ≤ n)

at_least-IsTaken :
    (name : String) (bound default : ℕ) (o : Option ℤ) (n : ℕ)
    → at_least name bound default o ≡ loaded n
    → IsTaken bound default o n
at_least-IsTaken name bound default none n e = cc
at_least-IsTaken name bound default (some (negsuc k)) n e = cc
at_least-IsTaken name bound default (some (pos k)) n e = ground (arith, e)

required-eq : (name : String) (o : Option Text) (t : Text) → required name o ≡ loaded t → o ≡ some t
required-eq name none t e = cc
required-eq name (some u) t e = cc

abbrev AreLoaded :
    Loaded Text
    → Loaded Text
    → Loaded ℕ
    → Loaded ℕ
    → Loaded ℕ
    → Option Text
    → GatewaySettings
    → Type 0
AreLoaded adapter url timeout results samples path s =
    (adapter ≡ loaded s.database_adapter)
    × (url ≡ loaded s.database_url)
    × (timeout ≡ loaded s.query_timeout_ms)
    × (results ≡ loaded s.max_results)
    × (samples ≡ loaded s.max_sample_rows_in_observability)
    × (path ≡ s.observability_jsonl_path)

loaded-injective : (s t : GatewaySettings) → loaded s ≡ loaded t → s ≡ t
loaded-injective s t e = cc

assemble-AreLoaded :
    (adapter url : Loaded Text) (timeout results samples : Loaded ℕ) (path : Option Text)
    (s : GatewaySettings)
    → assemble adapter url timeout results samples path ≡ loaded s
    → AreLoaded adapter url timeout results samples path s
assemble-AreLoaded (loaded adapter) (loaded url) (loaded timeout) (loaded results) (loaded samples)
      path s e =
    let t : GatewaySettings = record {
      database_adapter = adapter;
      database_url = url;
      query_timeout_ms = timeout;
      max_results = results;
      max_sample_rows_in_observability = samples;
      observability_jsonl_path = path;
    } in
    subst
      (λ x.
        AreLoaded (loaded adapter) (loaded url) (loaded timeout) (loaded results) (loaded samples)
          path x)
      (loaded-injective t s e) (refl, refl, refl, refl, refl, refl)
assemble-AreLoaded _ _ _ _ _ path s e = cc

pub record IsFrom (e : Environment) (s : GatewaySettings) : Type 0 where
  pub adapter : e.database_adapter ≡ some s.database_adapter
  pub url : e.database_url ≡ some s.database_url
  pub timeout : IsTaken 1 default_query_timeout_ms e.query_timeout_ms s.query_timeout_ms
  pub results : IsTaken 1 default_max_results e.max_results s.max_results
  pub samples :
      IsTaken 0 default_max_sample_rows_in_observability e.max_sample_rows_in_observability
        s.max_sample_rows_in_observability
  pub path : e.observability_jsonl_path ≡ s.observability_jsonl_path

-- Settings that load have the adapter and the URL that the environment names, so these are not
-- absent; each number is the one that is given, at least 1 for the time limit and the maximum of
-- results, or where none is given its default; and the path of the file is as given.
pub create_gateway_settings-IsFrom :
    (e : Environment) (s : GatewaySettings) → create_gateway_settings e ≡ loaded s → IsFrom e s
unfolding create_gateway_settings
create_gateway_settings-IsFrom e s h =
    let (a, u, t, r, m, p) = assemble-AreLoaded _ _ _ _ _ e.observability_jsonl_path s h in
    record {
      adapter = required-eq "database_adapter" e.database_adapter s.database_adapter a;
      url = required-eq "database_url" e.database_url s.database_url u;
      timeout =
          at_least-IsTaken "query_timeout_ms" 1 default_query_timeout_ms e.query_timeout_ms
            s.query_timeout_ms t;
      results = at_least-IsTaken "max_results" 1 default_max_results e.max_results s.max_results r;
      samples =
          at_least-IsTaken "max_sample_rows_in_observability" 0
            default_max_sample_rows_in_observability e.max_sample_rows_in_observability
            s.max_sample_rows_in_observability m;
      path = p;
    }
