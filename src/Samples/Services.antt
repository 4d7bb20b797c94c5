-- ===== src/Samples/Services.antt =====
-- The service on the sample database, and the theorems on its answers.
use sql_gateway_poc.Base.{ℕ, none, some, [], ◌∷◌, take, refl}
use sql_gateway_poc.Base.Exec.{foreign, throw}
use sql_gateway_poc.Base.Exec.Ensures.{Ensures}
use sql_gateway_poc.Core.Values.{int, pos, str}
use sql_gateway_poc.Core.Ports.{ObservabilityRecorder}
use sql_gateway_poc.Config.Settings.{GatewaySettings}
use sql_gateway_poc.Postgres.Executor.{Psycopg}
use sql_gateway_poc.Postgres.Executor.Total.{IsDriver}
use sql_gateway_poc.Core.Dtos.{allowed, ExecuteQueryResultDto}
use sql_gateway_poc.App.Service.{Environs, answer_query}
use sql_gateway_poc.App.Service.Served.{IsServed, answer_query-IsServed}
use sql_gateway_poc.Samples.Ports.{tick, three_rows, silent_recorder, ticking_clocks}
use sql_gateway_poc.Samples.Trees.{trees, trees-IsParser, update_text}

abbrev pub database : Psycopg ℕ
database = record {
  connect = λ url timeout. tick tt;
  leave_connection = λ failing. tick tt;
  open_cursor = tick tt;
  leave_cursor = λ failing. tick tt;
  cursor_execute = λ query parameters. tick tt;
  description = λ s. some three_rows.columns;
  rowcount = λ s. pos 3;
  fetchmany = λ n. tick (take n three_rows.rows);
  fetchone = tick (some (int (pos 1) ∷ []));
  commit = tick tt;
}

database-IsDriver : IsDriver database
database-IsDriver = record {
  connect = λ url timeout. record { at = λ s p. tt };
  leave_connection = λ failing. record { at = λ s p. tt };
  open_cursor = record { at = λ s p. tt };
  leave_cursor = λ failing. record { at = λ s p. tt };
  cursor_execute = λ query parameters. record { at = λ s p. tt };
  fetchmany = λ n. record { at = λ s p. (three_rows.columns, refl) };
  commit = record { at = λ s p. tt };
}

abbrev pub full_disk : ObservabilityRecorder ℕ
full_disk = record { record_entry = λ _. throw (foreign "OSError") }

abbrev pub environs : Environs ℕ
environs = record {
  psycopg = database;
  stdout_recorder = silent_recorder;
  in_memory_recorder = silent_recorder;
  jsonl_file_recorder = full_disk;
  clocks = ticking_clocks;
  new_uuid = tick (b'i' ∷ []);
}

abbrev pub settings : GatewaySettings
settings = record {
  database_adapter = b'p' ∷ [];
  database_url = b'u' ∷ [];
  query_timeout_ms = 250;
  max_results = 1000;
  max_sample_rows_in_observability = 20;
  observability_jsonl_path = none;
}

answer_query-IsServed_example :
    Ensures
      (λ s. Unit)
      (answer_query trees environs settings (str update_text))
      (IsServed trees environs settings (str update_text))
answer_query-IsServed_example =
    answer_query-IsServed trees environs settings trees-IsParser database-IsDriver
      (record { at = λ s p. tt }) (record { at = λ s p. tt }) (record { at = λ s p. tt })
      (str update_text)

abbrev some_result : ExecuteQueryResultDto
some_result = record {
  decision = allowed;
  request_id = b'i' ∷ [];
  redacted_query = b'q' ∷ [];
  duration_ms = some 0;
  validation_result = none;
  query_outcome = some three_rows;
}
