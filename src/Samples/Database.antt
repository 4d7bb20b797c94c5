-- ===== src/Samples/Database.antt =====
-- A database with three rows, and the theorems on the executor, the probe and the settings.
use Prim.Native.Nat.{◌≤◌}
use sql_gateway_poc.Base.{
  ℕ, ◌+◌, ◌<◌, true, none, some, List, [], ◌∷◌, map, ◌≡◌, ◌↔◌, refl, arith, length, take,
}
use sql_gateway_poc.Base.Text.{Text}
use sql_gateway_poc.Base.Exec.Ensures.{Ensures}
use sql_gateway_poc.Base.Exec.Log.{LogIs}
use sql_gateway_poc.Core.Values.{Cell, int, pos, bytes, str}
use sql_gateway_poc.Http.Probes.{readiness_endpoint}
use sql_gateway_poc.Http.Probes.Readiness.{IsProbed, readiness_endpoint-IsProbed}
use sql_gateway_poc.Postgres.Executor.{
  Psycopg, ExecutorSettings, execute_postgres, read_outcome, ping_postgres, postgres_executor,
}
use sql_gateway_poc.Postgres.Executor.Calls.{log_psycopg}
use sql_gateway_poc.Postgres.Executor.Calls.Settled.{IsSettled, execute_postgres_settles}
use sql_gateway_poc.Postgres.Executor.Cells.{
  coerce_cell_to_json_safe, IsWellCoerced, coerce_cell-IsWellCoerced,
}
use sql_gateway_poc.Postgres.Executor.Messages.{max_error_message_length, sanitize_error_message}
use sql_gateway_poc.Postgres.Executor.Messages.Masks.{with_value, sanitize_error_message_hides}
use sql_gateway_poc.Postgres.Executor.Reads.{read_outcome_truncates}
use sql_gateway_poc.Config.Settings.{Environment, GatewaySettings, loaded, create_gateway_settings}
use sql_gateway_poc.Config.Settings.Bounds.{IsFrom, create_gateway_settings-IsFrom}
use sql_gateway_poc.Samples.Ports.{tick, three_rows, open_guard}

abbrev names : List Text
names = three_rows.columns

abbrev table : List (List Cell)
table = three_rows.rows

abbrev database : Psycopg ℕ
database = record {
  connect = λ url timeout. tick tt;
  leave_connection = λ failing. tick tt;
  open_cursor = tick tt;
  leave_cursor = λ failing. tick tt;
  cursor_execute = λ query parameters. tick tt;
  description = λ s. some names;
  rowcount = λ s. pos 3;
  fetchmany = λ n. tick (take n table);
  fetchone = tick (some (int (pos 1) ∷ []));
  commit = tick tt;
}

abbrev executor_settings : ExecutorSettings
executor_settings = record { database_url = b'u' ∷ []; query_timeout_ms = 5000; max_results = 2 }

abbrev some_query : Text
some_query = b'q' ∷ []

execute_postgres_settles_example :
    Ensures
      (LogIs [])
      (execute_postgres (log_psycopg database) executor_settings (str some_query))
      (IsSettled database executor_settings some_query)
execute_postgres_settles_example = execute_postgres_settles database executor_settings some_query

read_outcome_truncates_example :
    let o = read_outcome 2 names (take (2 + 1) table) in
    (o.rows ≡ map (λ row. map coerce_cell_to_json_safe row) (take 2 table))
    × (length o.rows ≤ 2)
    × ((o.rows_were_truncated ≡ true) ↔ (2 < length table))
read_outcome_truncates_example = read_outcome_truncates 2 names table

coerce_cell-IsWellCoerced_example : IsWellCoerced (bytes (222 ∷ 173 ∷ []))
coerce_cell-IsWellCoerced_example =
    coerce_cell-IsWellCoerced (bytes (222 ∷ 173 ∷ [])) (omega arith, (omega arith, tt))

abbrev key : Text
key = b'K' ∷ b'e' ∷ b'y' ∷ []

sanitize_error_message_hides_example :
    (length (sanitize_error_message key) ≤ max_error_message_length)
    × (sanitize_error_message (with_value key (b'4' ∷ []) [])
        ≡ sanitize_error_message (with_value key (b'2' ∷ b'3' ∷ []) []))
sanitize_error_message_hides_example =
    sanitize_error_message_hides key key (b'4' ∷ []) (b'2' ∷ b'3' ∷ []) [] (refl, tt)
      (refl, (refl, tt))

readiness_endpoint-IsProbed_example :
    IsProbed
      (ping_postgres database executor_settings 0).0
      (readiness_endpoint
        (record open_guard { executor = postgres_executor database executor_settings })
        0).0
readiness_endpoint-IsProbed_example =
    readiness_endpoint-IsProbed database executor_settings open_guard 0

abbrev environment : Environment
environment = record {
  database_adapter = some (b'p' ∷ []);
  database_url = some (b'u' ∷ []);
  query_timeout_ms = some (pos 250);
  max_results = none;
  max_sample_rows_in_observability = none;
  observability_jsonl_path = none;
}

abbrev settings : GatewaySettings
settings = record {
  database_adapter = b'p' ∷ [];
  database_url = b'u' ∷ [];
  query_timeout_ms = 250;
  max_results = 1000;
  max_sample_rows_in_observability = 20;
  observability_jsonl_path = none;
}

environment_loads : create_gateway_settings environment ≡ loaded settings
unfolding create_gateway_settings
environment_loads = refl

create_gateway_settings-IsFrom_example : IsFrom environment settings
create_gateway_settings-IsFrom_example =
    create_gateway_settings-IsFrom environment settings environment_loads
