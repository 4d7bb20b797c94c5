-- ===== src/Http/Probes/Readiness.antt =====
-- The readiness probe over the Postgres executor.
use sql_gateway_poc.Base.{true, false, Bool, false, ◌≡◌, refl}
use sql_gateway_poc.Base.Exec.{
  ◌>>=◌, Outcome, returned, raised, assertion_error, psycopg_error, foreign,
}
use sql_gateway_poc.Base.Exec.Ensures.{Ensures}
use sql_gateway_poc.Core.Ports.{AccessGuard}
use sql_gateway_poc.Http.Response
use sql_gateway_poc.Http.Response.{service_unavailable, JsonResponse}
use sql_gateway_poc.Http.Probes.{
  ReadinessResponse, ready, not_ready, up, down, check, build_readiness_response,
  readiness_endpoint,
}
use sql_gateway_poc.Postgres.Executor.{
  Psycopg, ExecutorSettings, recover, except_psycopg, ping_postgres, postgres_executor,
}
use sql_gateway_poc.Postgres.Executor.Calls.Settled.{IsNoDbError}

abbrev IsUp : JsonResponse ReadinessResponse → Type 0
IsUp answer =
    (answer.status_code ≡ Response.ok)
    × (answer.content.status ≡ ready)
    × (answer.content.database ≡ up)

abbrev IsDown : JsonResponse ReadinessResponse → Type 0
IsDown answer =
    (answer.status_code ≡ service_unavailable)
    × (answer.content.status ≡ not_ready)
    × (answer.content.database ≡ down)

-- What the probe answers, by what the ping came to: up for true, down for false.
abbrev pub IsProbed : Outcome Bool → Outcome (JsonResponse ReadinessResponse) → Type 0
IsProbed (returned true) (returned answer) = IsUp answer
IsProbed (returned false) (returned answer) = IsDown answer
IsProbed (raised e) (raised f) = (f ≡ e) × IsNoDbError e
IsProbed _ _ = ⊥

abbrev IsCaught : {S A : Type 0} → Outcome A → S → Type 0
IsCaught (returned a) s = Unit
IsCaught (raised e) s = IsNoDbError e

caught : {S : Type 0} (o : Outcome Bool) (s : S) → IsCaught (recover (λ _. false) o) s
caught (returned b) s = tt
caught (raised (psycopg_error e)) s = tt
caught (raised assertion_error) s = tt
caught (raised (foreign name)) s = tt

module _ {S : Type 0} (psycopg : Psycopg S) (settings : ExecutorSettings) where
  ping-IsCaught : Ensures (λ s. Unit) (ping_postgres psycopg settings) IsCaught
  unfolding ping_postgres except_psycopg
  ping-IsCaught = record { at = λ s p. caught _ _ }

  -- The probe, once the ping has ended.
  after_ping :
      (guard : AccessGuard S) (o : Outcome Bool) (s' s : S)
      → IsCaught o s'
      → IsProbed o
          (readiness_endpoint
            (record guard { executor = record guard.executor { ping = λ _. (o, s') } })
            s).0
  unfolding readiness_endpoint check build_readiness_response ◌>>=◌
  after_ping guard (returned true) s' s h = (refl, refl, refl)
  after_ping guard (returned false) s' s h = (refl, refl, refl)
  after_ping guard (raised e) s' s h = (refl, h)

  -- Whatever psycopg does, the readiness probe over the Postgres executor answers 200 with a
  -- database that is up if the ping gives true, and 503 with one that is down if it gives false;
  -- where the ping raises, the probe raises the same, and that is no psycopg.Error.
  pub readiness_endpoint-IsProbed :
      (guard : AccessGuard S) (s : S)
      → IsProbed
          (ping_postgres psycopg settings s).0
          (readiness_endpoint (record guard { executor = postgres_executor psycopg settings }) s).0
  unfolding readiness_endpoint check ◌>>=◌
  readiness_endpoint-IsProbed guard s =
      after_ping guard (ping_postgres psycopg settings s).0 (ping_postgres psycopg settings s).1 s
        (ping-IsCaught.at s tt)
