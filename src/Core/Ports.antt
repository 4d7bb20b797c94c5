-- ===== src/Core/Ports.antt =====
-- The ports as actions on a state `S` that the adapters share, and the triple of them.
-- core/ports/outbound/{query_validator,query_scrubber,query_executor,observability_recorder}.py,
-- core/model/access_guard.py
use sql_gateway_poc.Base.{ℕ, Bool}
use sql_gateway_poc.Base.Text.{Text}
use sql_gateway_poc.Base.Exec.{Exec}
use sql_gateway_poc.Core.Values.{QueryPayload}
use sql_gateway_poc.Core.Dtos.{ValidationResultDto, QueryOutcomeDto}
use sql_gateway_poc.Core.Entry.{ObservabilityEntryDto}

pub record QueryExecutor (S : Type 0) : Type 0 where
  pub execute : QueryPayload → Exec S QueryOutcomeDto
  pub ping : Exec S Bool

pub record AccessGuard (S : Type 0) : Type 0 where
  pub validate : QueryPayload → Exec S ValidationResultDto
  pub scrub : QueryPayload → Exec S Text
  pub executor : QueryExecutor S

pub record ObservabilityRecorder (S : Type 0) : Type 0 where
  pub record_entry : ObservabilityEntryDto → Exec S Unit

-- The clocks: time.perf_counter() in nanoseconds, and datetime.now(UTC).isoformat().
pub record Clocks (S : Type 0) : Type 0 where
  pub perf_counter : Exec S ℕ
  pub timestamp : Exec S Text
