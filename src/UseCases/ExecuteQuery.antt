-- ===== src/UseCases/ExecuteQuery.antt =====
-- The use case behind POST /query: scrub, validate, execute, record.
-- application/use_cases/execute_query_use_case.py
pub mod Results
pub mod Calls
pub mod Total
use sql_gateway_poc.Base.{
  ℕ, ◌+◌, ◌-◌, ◌*◌, ◌/◌, ◌%◌, Bool, true, false, not, Option, none, some, List, length, take, ltb,
  ◌==◌, if◌then◌else◌,
}
use sql_gateway_poc.Base.Text.{Text}
use sql_gateway_poc.Base.Exec.{Exec, pure, ◌>>=◌, ◌>>◌}
use sql_gateway_poc.Core.Values.{QueryPayload}
use sql_gateway_poc.Core.Dtos.{
  allowed, rejected, db_error, ValidationResultDto, QueryOutcomeDto, ExecuteQueryResultDto,
}
use sql_gateway_poc.Core.Entry.{ObservabilityEntryDto, entry}
use sql_gateway_poc.Core.Ports.{AccessGuard, ObservabilityRecorder, Clocks}

-- round(n / d), halves to the even side.
unfoldable pub round_div : ℕ → ℕ → ℕ
round_div n d =
    if ltb (2 * (n % d)) d
    then n / d
    else if ltb d (2 * (n % d))
    then n / d + 1
    else n / d + n / d % 2

-- _milliseconds_since, given the second reading of the clock: nanoseconds in, hundredths of a
-- millisecond out (the program's floats may differ in the last bit).
unfoldable pub milliseconds_since : ℕ → ℕ → ℕ
unfolding round_div
milliseconds_since started_at now = round_div (now - started_at) 10000

-- The entries that the three _record_and_return_* methods build.
abbrev pub rejected_entry : Text → Text → ValidationResultDto → Text → ObservabilityEntryDto
rejected_entry request_id redacted_query validation_result now =
    record (entry request_id rejected redacted_query now) {
      rejection_code = validation_result.rejection_code;
      rejection_detail = validation_result.rejection_detail;
    }

abbrev pub allowed_entry : ℕ → Text → Text → QueryOutcomeDto → ℕ → Text → ObservabilityEntryDto
allowed_entry max_sample_rows request_id redacted_query query_outcome duration_ms now =
    record (entry request_id allowed redacted_query now) {
      duration_ms = some duration_ms;
      rows_affected = query_outcome.rows_affected;
      rows_returned = some (length query_outcome.rows);
      columns = some query_outcome.columns;
      rows = some (take max_sample_rows query_outcome.rows);
      rows_were_truncated = some query_outcome.rows_were_truncated;
    }

abbrev pub db_error_entry : Text → Text → QueryOutcomeDto → ℕ → Text → ObservabilityEntryDto
db_error_entry request_id redacted_query query_outcome duration_ms now =
    record (entry request_id db_error redacted_query now) {
      duration_ms = some duration_ms;
      db_error_message = query_outcome.error_message;
      db_error_code = query_outcome.error_code;
    }

module _ {S : Type 0} (guard : AccessGuard S) (recorder : ObservabilityRecorder S)
    (clocks : Clocks S) (max_sample_rows_in_observability : ℕ) where
  open guard use {validate, scrub, executor}
  open recorder use {record_entry}
  open clocks use {perf_counter, timestamp}

  unfoldable pub record_and_return_rejected :
      Text → Text → ValidationResultDto → Exec S ExecuteQueryResultDto
  record_and_return_rejected request_id redacted_query validation_result = do
    now ← timestamp
    record_entry (rejected_entry request_id redacted_query validation_result now)
    pure (record {
      decision = rejected;
      request_id = request_id;
      redacted_query = redacted_query;
      duration_ms = none;
      validation_result = some validation_result;
      query_outcome = none;
    })

  record_and_return_allowed : Text → Text → QueryOutcomeDto → ℕ → Exec S ExecuteQueryResultDto
  record_and_return_allowed request_id redacted_query query_outcome duration_ms = do
    now ← timestamp
    record_entry (
        allowed_entry max_sample_rows_in_observability request_id redacted_query query_outcome
          duration_ms now)
    pure (record {
      decision = allowed;
      request_id = request_id;
      redacted_query = redacted_query;
      duration_ms = some duration_ms;
      validation_result = none;
      query_outcome = some query_outcome;
    })

  record_and_return_db_error : Text → Text → QueryOutcomeDto → ℕ → Exec S ExecuteQueryResultDto
  record_and_return_db_error request_id redacted_query query_outcome duration_ms = do
    now ← timestamp
    record_entry (db_error_entry request_id redacted_query query_outcome duration_ms now)
    pure (record {
      decision = db_error;
      request_id = request_id;
      redacted_query = redacted_query;
      duration_ms = some duration_ms;
      validation_result = none;
      query_outcome = some query_outcome;
    })

  run_and_record : QueryPayload → Text → Text → Exec S ExecuteQueryResultDto
  unfolding milliseconds_since record_and_return_allowed record_and_return_db_error
  run_and_record query_text request_id redacted_query = do
    execution_started_at ← perf_counter
    query_outcome ← executor.execute query_text
    now ← perf_counter
    let duration_ms = milliseconds_since execution_started_at now
    if query_outcome.succeeded
        then record_and_return_allowed request_id redacted_query query_outcome duration_ms
        else record_and_return_db_error request_id redacted_query query_outcome duration_ms

  unfoldable pub execute : QueryPayload → Text → Exec S ExecuteQueryResultDto
  unfolding run_and_record record_and_return_rejected
  execute query_text request_id = do
    redacted_query ← scrub query_text
    validation_result ← validate query_text
    if not validation_result.is_allowed
        then record_and_return_rejected request_id redacted_query validation_result
        else run_and_record query_text request_id redacted_query
