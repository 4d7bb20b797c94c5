-- ===== src/UseCases/ExecuteQuery/Calls.antt =====
-- The calls that the use case makes: the ports wrapped so that each call leaves an event, and
-- what a log of one run has to look like.
-- application/use_cases/execute_query_use_case.py
pub mod Order
use sql_gateway_poc.Base.{
  ℕ, zero, suc, true, false, Option, none, some, List, [], ◌∷◌, ◌≤◌, length, ◌≡◌,
}
use sql_gateway_poc.Base.Text.{Text}
use sql_gateway_poc.Base.Exec.{Exec, Outcome, returned, raised}
use sql_gateway_poc.Base.Exec.Log.{logged, quiet}
use sql_gateway_poc.Core.Values.{QueryPayload, Cell}
use sql_gateway_poc.Core.Dtos.{ValidationResultDto, QueryOutcomeDto, ExecuteQueryResultDto}
use sql_gateway_poc.Core.Entry.{ObservabilityEntryDto}
use sql_gateway_poc.Core.Ports.{AccessGuard, QueryExecutor, ObservabilityRecorder, Clocks}

pub data Event : Type 0 where
  scrubbed : QueryPayload → Outcome Text → Event
  validated : QueryPayload → Outcome ValidationResultDto → Event
  executed : QueryPayload → Outcome QueryOutcomeDto → Event
  recorded : ObservabilityEntryDto → Outcome {0} Unit → Event

module _ {S : Type 0} where
  abbrev pub log_guard : AccessGuard S → AccessGuard (S × List Event)
  log_guard guard = record {
    validate = λ p. logged (validated p) (guard.validate p);
    scrub = λ p. logged (scrubbed p) (guard.scrub p);
    executor = record {
      execute = λ p. logged (executed p) (guard.executor.execute p);
      ping = quiet guard.executor.ping;
    };
  }

  abbrev pub log_recorder : ObservabilityRecorder S → ObservabilityRecorder (S × List Event)
  log_recorder recorder = record {
    record_entry = λ e. logged (recorded e) (recorder.record_entry e);
  }

  abbrev pub quiet_clocks : Clocks S → Clocks (S × List Event)
  quiet_clocks clocks = record {
    perf_counter = quiet clocks.perf_counter;
    timestamp = quiet clocks.timestamp;
  }

-- The last thing that happened is that this payload was allowed.
abbrev pub IsJustAllowed : QueryPayload → List Event → Type 0
IsJustAllowed p (validated q (returned v) ∷ log) = (p ≡ q) × (v.is_allowed ≡ true)
IsJustAllowed p _ = ⊥

abbrev pub count_executed : List Event → ℕ
count_executed [] = zero
count_executed (executed p o ∷ log) = suc (count_executed log)
count_executed (_ ∷ log) = count_executed log

-- Each run of the executor came right after the verdict that allowed its payload.
abbrev pub IsGuarded : List Event → Type 0
IsGuarded [] = Unit
IsGuarded (executed p o ∷ log) = IsJustAllowed p log × IsGuarded log
IsGuarded (_ ∷ log) = IsGuarded log

abbrev pub HasAtMost : ℕ → Option (List (List Cell)) → Type 0
HasAtMost n none = Unit
HasAtMost n (some rows) = length rows ≤ n

-- The entry says what the result says.
pub record Reports (max_sample_rows : ℕ) (request_id redacted_query : Text)
    (r : ExecuteQueryResultDto) (e : ObservabilityEntryDto) : Type 0 where
  pub ids : (e.request_id ≡ request_id) × (r.request_id ≡ request_id)
  pub queries : (e.redacted_query ≡ redacted_query) × (r.redacted_query ≡ redacted_query)
  pub decisions : e.decision ≡ r.decision
  pub durations : e.duration_ms ≡ r.duration_ms
  pub samples : HasAtMost max_sample_rows e.rows

-- The log of a run that refused the payload, and of one that ran it, newest call first.
abbrev pub IsRefusal : ℕ → QueryPayload → Text → ExecuteQueryResultDto → List Event → Type 0
IsRefusal n p request_id r log =
    (q : Text) × (v : ValidationResultDto) × (e : ObservabilityEntryDto) × (log
      ≡ recorded e (returned tt) ∷ validated p (returned v) ∷ scrubbed p (returned q) ∷ [])
    × (v.is_allowed ≡ false)
    × (r.validation_result ≡ some v)
    × Reports n request_id q r e

abbrev pub IsRun : ℕ → QueryPayload → Text → ExecuteQueryResultDto → List Event → Type 0
IsRun n p request_id r log =
    (q : Text) × (v : ValidationResultDto) × (o : QueryOutcomeDto) × (e : ObservabilityEntryDto)
    × (log
        ≡ recorded e (returned tt)
          ∷ executed p (returned o)
          ∷ validated p (returned v)
          ∷ scrubbed p (returned q)
          ∷ [])
    × (v.is_allowed ≡ true)
    × (r.query_outcome ≡ some o)
    × Reports n request_id q r e
