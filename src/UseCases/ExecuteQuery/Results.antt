-- ===== src/UseCases/ExecuteQuery/Results.antt =====
-- The result of the use case fits its decision.
use sql_gateway_poc.Base.{ℕ, true, false, some, ◌≡◌, refl, not, arith}
use sql_gateway_poc.Base.Text.{Text}
use sql_gateway_poc.Base.Exec.{Exec, Outcome, returned, raised, ◌>>=◌}
use sql_gateway_poc.Base.Exec.Ensures.{Ensures, Ensures-pure, Ensures-bind, Ensures-if}
use sql_gateway_poc.Core.Values.{QueryPayload}
use sql_gateway_poc.Core.Dtos.{
  DecisionEnum, allowed, rejected, db_error, ValidationResultDto, QueryOutcomeDto,
  ExecuteQueryResultDto,
}
use sql_gateway_poc.Core.Ports.{AccessGuard, ObservabilityRecorder, Clocks}
use sql_gateway_poc.UseCases.ExecuteQuery.{
  record_and_return_rejected, record_and_return_allowed, record_and_return_db_error, run_and_record,
  execute,
}

-- What a result with this decision carries.
abbrev pub Carries : DecisionEnum → ExecuteQueryResultDto → Type 0
Carries rejected r =
    (v : ValidationResultDto) × (r.validation_result ≡ some v) × (v.is_allowed ≡ false)
Carries allowed r = (o : QueryOutcomeDto) × (r.query_outcome ≡ some o) × (o.succeeded ≡ true)
Carries db_error r = (o : QueryOutcomeDto) × (r.query_outcome ≡ some o) × (o.succeeded ≡ false)

abbrev pub IsConsistent : ExecuteQueryResultDto → Type 0
IsConsistent r = Carries r.decision r

abbrev pub OnReturn : {S : Type 0} → Outcome ExecuteQueryResultDto → S → Type 0
OnReturn (returned r) s = IsConsistent r
OnReturn (raised e) s = Unit

abbrev Anything : {S A : Type 0} → Outcome A → S → Type 0
Anything o s = Unit

module _ {S : Type 0} where
  abbrev IsAlwaysConsistent : Exec S ExecuteQueryResultDto → Type 0
  IsAlwaysConsistent m = Ensures (λ s. Unit) m OnReturn

  any_step :
      {A : Type 0} (m : Exec S A) (f : A → Exec S ExecuteQueryResultDto)
      → ((a : A) → IsAlwaysConsistent (f a))
      → IsAlwaysConsistent (m >>= f)
  any_step m f next = Ensures-bind Anything m f (record { at = λ s p. tt }) next (λ e s r. tt)

module _ {S : Type 0} (guard : AccessGuard S) (recorder : ObservabilityRecorder S)
    (clocks : Clocks S) (max_sample_rows : ℕ) where
  rejected-IsConsistent :
      (request_id redacted_query : Text) (v : ValidationResultDto)
      → v.is_allowed ≡ false
      → IsAlwaysConsistent (
          record_and_return_rejected guard recorder clocks max_sample_rows request_id redacted_query
            v)
  unfolding record_and_return_rejected
  rejected-IsConsistent request_id redacted_query v e =
      any_step _ _ λ _. any_step _ _ λ _. Ensures-pure _ (λ s p. (v, refl, e))

  allowed-IsConsistent :
      (request_id redacted_query : Text) (o : QueryOutcomeDto) (duration_ms : ℕ)
      → o.succeeded ≡ true
      → IsAlwaysConsistent (
          record_and_return_allowed guard recorder clocks max_sample_rows request_id redacted_query
            o duration_ms)
  unfolding record_and_return_allowed
  allowed-IsConsistent request_id redacted_query o duration_ms e =
      any_step _ _ λ _. any_step _ _ λ _. Ensures-pure _ (λ s p. (o, refl, e))

  db_error-IsConsistent :
      (request_id redacted_query : Text) (o : QueryOutcomeDto) (duration_ms : ℕ)
      → o.succeeded ≡ false
      → IsAlwaysConsistent (
          record_and_return_db_error guard recorder clocks max_sample_rows request_id redacted_query
            o duration_ms)
  unfolding record_and_return_db_error
  db_error-IsConsistent request_id redacted_query o duration_ms e =
      any_step _ _ λ _. any_step _ _ λ _. Ensures-pure _ (λ s p. (o, refl, e))

  run_and_record-IsConsistent :
      (payload : QueryPayload) (request_id redacted_query : Text)
      → IsAlwaysConsistent
          (run_and_record guard recorder clocks max_sample_rows payload request_id redacted_query)
  unfolding run_and_record
  run_and_record-IsConsistent payload request_id redacted_query = any_step _ _ λ _.
      any_step _ _ λ o. any_step _ _ λ _.
        Ensures-if o.succeeded _ _ (allowed-IsConsistent request_id redacted_query o _)
          (db_error-IsConsistent request_id redacted_query o _)

  -- Whatever the ports do, a result that the use case returns fits its decision: a rejection
  -- carries a verdict that refuses the query, an allowed query an outcome that succeeded, and a
  -- database error an outcome that failed.
  pub execute-IsConsistent :
      (payload : QueryPayload) (request_id : Text)
      → Ensures
          (λ s. Unit)
          (execute guard recorder clocks max_sample_rows payload request_id)
          OnReturn
  unfolding execute
  execute-IsConsistent payload request_id = any_step _ _ λ redacted_query. any_step _ _ λ v.
      Ensures-if (not v.is_allowed) _ _
        (λ e. rejected-IsConsistent request_id redacted_query v (ground arith))
        (λ e. run_and_record-IsConsistent payload request_id redacted_query)
