-- ===== src/App.antt =====
-- The gateway put together for Postgres: the guard that the use case gets.
-- main.py, infrastructure/persistence/postgres/query_scrubber_adapter.py
pub mod Barrier
pub mod Service
use sql_gateway_poc.Base.Text.{Text}
use sql_gateway_poc.Base.Exec.{Exec, Outcome}
use sql_gateway_poc.Core.Values.{QueryPayload}
use sql_gateway_poc.Core.Dtos.{ValidationResultDto}
use sql_gateway_poc.Core.Ports.{QueryExecutor, AccessGuard, ObservabilityRecorder, Clocks}
use sql_gateway_poc.Sql.Ast.{Sqlglot}
use sql_gateway_poc.Sql.Registry.{RuleRegistry}
use sql_gateway_poc.Sql.Scrubber.{scrub}
use sql_gateway_poc.Postgres.Validator.{postgres, validate_postgres}

-- assemble_access_guard
abbrev pub assemble_access_guard :
    {S : Type 0}
    → (QueryPayload → Exec S ValidationResultDto)
    → (QueryPayload → Exec S Text)
    → QueryExecutor S
    → AccessGuard S
assemble_access_guard validator scrubber executor = record {
  validate = validator;
  scrub = scrubber;
  executor = executor;
}

-- An action that does not look at the registry of rules.
abbrev pub beside : {R S A : Type 0} → Exec S A → Exec (R × S) A
beside m (r, s) = let (o, s') = m s in (o, (r, s'))

-- PostgresQueryScrubberAdapter
unfoldable pub scrub_postgres : Sqlglot → QueryPayload → Outcome Text
scrub_postgres sqlglot = scrub sqlglot postgres

module _ (sqlglot : Sqlglot) {S : Type 0} where
  open sqlglot use {Node}

  -- PostgresQueryValidatorAdapter as a port: the registry is state that all validators share.
  abbrev pub validator : QueryPayload → Exec (RuleRegistry Node × S) ValidationResultDto
  validator query (r, s) =
      let (verdict, r') = validate_postgres sqlglot query r in (verdict, (r', s))

  abbrev pub scrubber : QueryPayload → Exec (RuleRegistry Node × S) Text
  scrubber query s = (scrub_postgres sqlglot query, s)

  abbrev pub executor_beside : QueryExecutor S → QueryExecutor (RuleRegistry Node × S)
  executor_beside executor = record {
    execute = λ query. beside (executor.execute query);
    ping = beside executor.ping;
  }

  abbrev pub postgres_guard : QueryExecutor S → AccessGuard (RuleRegistry Node × S)
  postgres_guard executor = assemble_access_guard validator scrubber (executor_beside executor)

  abbrev pub recorder_beside :
      ObservabilityRecorder S → ObservabilityRecorder (RuleRegistry Node × S)
  recorder_beside recorder = record { record_entry = λ entry. beside (recorder.record_entry entry) }

  abbrev pub clocks_beside : Clocks S → Clocks (RuleRegistry Node × S)
  clocks_beside clocks = record {
    perf_counter = beside clocks.perf_counter;
    timestamp = beside clocks.timestamp;
  }
