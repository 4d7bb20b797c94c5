-- ===== src/UseCases/ExecuteQuery/Total.antt =====
-- The use case returns a result where its ports return.
use sql_gateway_poc.Base.{ℕ, not}
use sql_gateway_poc.Base.Text.{Text}
use sql_gateway_poc.Base.Exec.{Exec, ◌>>=◌}
use sql_gateway_poc.Base.Exec.Raises.{Returns, Raises-pure, Raises-if, Raises-bind}
use sql_gateway_poc.Core.Values.{QueryPayload}
use sql_gateway_poc.Core.Dtos.{ValidationResultDto, QueryOutcomeDto}
use sql_gateway_poc.Core.Entry.{ObservabilityEntryDto}
use sql_gateway_poc.Core.Ports.{AccessGuard, ObservabilityRecorder, Clocks}
use sql_gateway_poc.UseCases.ExecuteQuery.{
  record_and_return_rejected, record_and_return_allowed, record_and_return_db_error, run_and_record,
  execute,
}

-- Each call of a port returns.
pub record DoReturn {S : Type 0} (guard : AccessGuard S) (recorder : ObservabilityRecorder S)
    (clocks : Clocks S) : Type 0 where
  pub scrub : (query : QueryPayload) → Returns (guard.scrub query)
  pub validate : (query : QueryPayload) → Returns (guard.validate query)
  pub execute_query : (query : QueryPayload) → Returns (guard.executor.execute query)
  pub record_entry : (entry : ObservabilityEntryDto) → Returns (recorder.record_entry entry)
  pub perf_counter : Returns clocks.perf_counter
  pub timestamp : Returns clocks.timestamp

module _ {S : Type 0} (guard : AccessGuard S) (recorder : ObservabilityRecorder S)
    (clocks : Clocks S) (max_sample_rows : ℕ) (ports : DoReturn guard recorder clocks) where
  step :
      {A B : Type 0} (m : Exec S A) (f : A → Exec S B)
      → Returns m
      → ((a : A) → Returns (f a))
      → Returns (m >>= f)
  step m f h k = Raises-bind (λ e. ⊥) m f h k

  rejected-Returns :
      (request_id redacted_query : Text) (v : ValidationResultDto)
      → Returns (
          record_and_return_rejected guard recorder clocks max_sample_rows request_id redacted_query
            v)
  unfolding record_and_return_rejected
  rejected-Returns request_id redacted_query v =
      step _ _ ports.timestamp λ now. step _ _ (ports.record_entry _) (λ _. Raises-pure (λ e. ⊥) _)

  allowed-Returns :
      (request_id redacted_query : Text) (o : QueryOutcomeDto) (duration_ms : ℕ)
      → Returns (
          record_and_return_allowed guard recorder clocks max_sample_rows request_id redacted_query
            o duration_ms)
  unfolding record_and_return_allowed
  allowed-Returns request_id redacted_query o duration_ms =
      step _ _ ports.timestamp λ now. step _ _ (ports.record_entry _) (λ _. Raises-pure (λ e. ⊥) _)

  db_error-Returns :
      (request_id redacted_query : Text) (o : QueryOutcomeDto) (duration_ms : ℕ)
      → Returns (
          record_and_return_db_error guard recorder clocks max_sample_rows request_id redacted_query
            o duration_ms)
  unfolding record_and_return_db_error
  db_error-Returns request_id redacted_query o duration_ms =
      step _ _ ports.timestamp λ now. step _ _ (ports.record_entry _) (λ _. Raises-pure (λ e. ⊥) _)

  run_and_record-Returns :
      (query : QueryPayload) (request_id redacted_query : Text)
      → Returns
          (run_and_record guard recorder clocks max_sample_rows query request_id redacted_query)
  unfolding run_and_record
  run_and_record-Returns query request_id redacted_query = step _ _ ports.perf_counter λ started.
      step _ _ (ports.execute_query query) λ o. step _ _ ports.perf_counter λ now.
        Raises-if (λ e. ⊥) o.succeeded _ _ (allowed-Returns request_id redacted_query o _)
          (db_error-Returns request_id redacted_query o _)

  -- Where each port returns, the use case returns a result.
  pub execute-Returns :
      (query : QueryPayload) (request_id : Text)
      → Returns (execute guard recorder clocks max_sample_rows query request_id)
  unfolding execute
  execute-Returns query request_id = step _ _ (ports.scrub query) λ redacted_query.
      step _ _ (ports.validate query) λ v.
        Raises-if (λ e. ⊥) (not v.is_allowed) _ _ (rejected-Returns request_id redacted_query v)
          (run_and_record-Returns query request_id redacted_query)
