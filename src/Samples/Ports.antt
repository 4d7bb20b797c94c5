-- ===== src/Samples/Ports.antt =====
-- Ports that answer in a fixed way, and one entry.
use sql_gateway_poc.Base.{ℕ, true, some, [], ◌∷◌, suc}
use sql_gateway_poc.Base.Exec.{Exec, returned}
use sql_gateway_poc.Core.Values.{int, pos}
use sql_gateway_poc.Core.Dtos.{allowed, allow, outcome, QueryOutcomeDto}
use sql_gateway_poc.Core.Entry.{ObservabilityEntryDto, entry}
use sql_gateway_poc.Core.Ports.{AccessGuard, ObservabilityRecorder, Clocks}

-- The state is a clock that ticks at each call.
abbrev pub tick : {A : Type 0} → A → Exec ℕ A
tick a now = (returned a, suc now)

abbrev pub three_rows : QueryOutcomeDto
three_rows = record (outcome true) {
  columns = (b'a' ∷ []) ∷ [];
  rows = (int (pos 1) ∷ []) ∷ (int (pos 2) ∷ []) ∷ (int (pos 3) ∷ []) ∷ [];
}

abbrev pub open_guard : AccessGuard ℕ
open_guard = record {
  validate = λ _. tick allow;
  scrub = λ _. tick (b'q' ∷ []);
  executor = record { execute = λ _. tick three_rows; ping = tick true };
}

abbrev pub silent_recorder : ObservabilityRecorder ℕ
silent_recorder = record { record_entry = λ _. tick tt }

abbrev pub ticking_clocks : Clocks ℕ
ticking_clocks = record {
  perf_counter = λ now. (returned now, suc now);
  timestamp = tick (b't' ∷ []);
}

abbrev pub one_entry : ObservabilityEntryDto
one_entry = record (entry (b'r' ∷ []) allowed (b'q' ∷ []) (b't' ∷ [])) {
  columns = some three_rows.columns;
  rows = some three_rows.rows;
}
