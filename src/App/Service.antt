-- ===== src/App/Service.antt =====
-- The service that answers POST /query: the controller over the use case, with the guard of
-- Postgres, the three sinks and the settings.
-- main.py, with the constructors of the adapters that the container calls
pub mod Served
pub mod Untouched
use sql_gateway_poc.Base.{List}
use sql_gateway_poc.Base.Text.{Text}
use sql_gateway_poc.Base.Exec.{Exec}
use sql_gateway_poc.Base.Exec.Log.{quiet}
use sql_gateway_poc.Core.Values.{QueryPayload}
use sql_gateway_poc.Core.Ports.{QueryExecutor, AccessGuard, ObservabilityRecorder, Clocks}
use sql_gateway_poc.Sql.Ast.{Sqlglot}
use sql_gateway_poc.Sql.Registry.{RuleRegistry}
use sql_gateway_poc.Config.Settings.{GatewaySettings}
use sql_gateway_poc.Postgres.Executor.{Psycopg, ExecutorSettings, postgres_executor}
use sql_gateway_poc.Observability.Sinks.{create_multi_sink_recorder}
use sql_gateway_poc.Http.Response.{JsonResponse}
use sql_gateway_poc.Http.Gateway.{QueryResponse, execute_query_endpoint}
use sql_gateway_poc.App.{beside, postgres_guard, executor_beside, recorder_beside, clocks_beside}

-- PostgresQueryExecutorAdapter.__init__
abbrev pub executor_settings : GatewaySettings → ExecutorSettings
executor_settings settings = record {
  database_url = settings.database_url;
  query_timeout_ms = settings.query_timeout_ms;
  max_results = settings.max_results;
}

-- What the service runs on: the driver, the sinks, the clocks and the source of request ids.
pub record Environs (S : Type 0) : Type 0 where
  pub psycopg : Psycopg S
  pub stdout_recorder : ObservabilityRecorder S
  pub in_memory_recorder : ObservabilityRecorder S
  pub jsonl_file_recorder : ObservabilityRecorder S
  pub clocks : Clocks S
  pub new_uuid : Exec S Text

module _ (sqlglot : Sqlglot) {S : Type 0} (environs : Environs S) (settings : GatewaySettings) where
  open sqlglot use {Node}

  -- The registry of rules, what the environs keep, and the log of sinks that failed.
  abbrev pub ServiceState : Type 0
  ServiceState = RuleRegistry Node × (S × List Text)

  abbrev pub service_executor : QueryExecutor (S × List Text)
  service_executor = record {
    execute = λ query.
        quiet ((postgres_executor environs.psycopg (executor_settings settings)).execute query);
    ping = quiet (postgres_executor environs.psycopg (executor_settings settings)).ping;
  }

  abbrev pub service_guard : AccessGuard ServiceState
  service_guard = postgres_guard sqlglot service_executor

  abbrev pub service_recorder : ObservabilityRecorder ServiceState
  service_recorder = recorder_beside sqlglot (
      create_multi_sink_recorder environs.stdout_recorder environs.in_memory_recorder
        environs.jsonl_file_recorder)

  abbrev pub service_clocks : Clocks ServiceState
  service_clocks = clocks_beside sqlglot (record {
    perf_counter = quiet environs.clocks.perf_counter;
    timestamp = quiet environs.clocks.timestamp;
  })

  abbrev pub answer_query : QueryPayload → Exec ServiceState (JsonResponse QueryResponse)
  answer_query query_text =
      execute_query_endpoint service_guard service_recorder service_clocks
        settings.max_sample_rows_in_observability (beside (quiet environs.new_uuid)) query_text
