-- ===== src/Samples/Requests.antt =====
-- The theorems on the use case and on the entry, at work on the sample ports.
use text.Mathlib.Text.{◌==◌ as str_eq}
use sql_gateway_poc.Base.{none, true, false, [], ◌∷◌, ◌≡◌, if◌then◌else◌}
use sql_gateway_poc.Base.Text.{Text}
use sql_gateway_poc.Base.Dict.{lookup}
use sql_gateway_poc.Base.Exec.Ensures.{Ensures}
use sql_gateway_poc.Core.Values.{str}
use sql_gateway_poc.Core.Entry.{to_json_payload}
use sql_gateway_poc.Core.Entry.Privacy.{with_result_data, to_json_payload_private}
use sql_gateway_poc.UseCases.ExecuteQuery.{execute}
use sql_gateway_poc.UseCases.ExecuteQuery.Results.{OnReturn, execute-IsConsistent}
use sql_gateway_poc.UseCases.ExecuteQuery.Calls.{log_guard, log_recorder, quiet_clocks}
use sql_gateway_poc.Base.Exec.Log.{LogIs}
use sql_gateway_poc.UseCases.ExecuteQuery.Calls.Order.{IsOver, execute_calls}
use sql_gateway_poc.Base.{◌↔◌, refl, some}
use sql_gateway_poc.Base.Exec.{returned, ◌>>=◌}
use sql_gateway_poc.Core.Dtos.{allowed, ExecuteQueryResultDto}
use sql_gateway_poc.UseCases.ExecuteQuery.{milliseconds_since, round_div}
use sql_gateway_poc.Http.Gateway.{accepted, reject_empty_and_oversize}
use sql_gateway_poc.Http.Gateway.Answers.{IsAnswered, execute-IsAnswered}
use sql_gateway_poc.Http.Gateway.Requests.{IsSized, reject_empty_and_oversize_iff}
use sql_gateway_poc.Samples.Ports.{
  three_rows, open_guard, silent_recorder, ticking_clocks, one_entry,
}

abbrev query : Text
query = b'q' ∷ []

abbrev some_id : Text
some_id = b'i' ∷ []

execute-IsConsistent_example :
    Ensures
      (λ s. Unit)
      (execute open_guard silent_recorder ticking_clocks 2 (str query) some_id)
      OnReturn
execute-IsConsistent_example =
    execute-IsConsistent open_guard silent_recorder ticking_clocks 2 (str query) some_id

execute_calls_example :
    Ensures
      (LogIs [])
      (execute
        (log_guard open_guard)
        (log_recorder silent_recorder)
        (quiet_clocks ticking_clocks)
        2
        (str query)
        some_id)
      (IsOver 2 (str query) some_id)
execute_calls_example =
    execute_calls open_guard silent_recorder ticking_clocks 2 (str query) some_id

to_json_payload_private_example :
    (to_json_payload (with_result_data one_entry none none) false ≡ to_json_payload one_entry false)
    × (lookup "request_id" (to_json_payload one_entry false) ≡ (
        if str_eq "columns" "request_id"
        then none
        else if str_eq "rows" "request_id"
        then none
        else lookup "request_id" (to_json_payload one_entry true)))
to_json_payload_private_example = to_json_payload_private one_entry none none "request_id"

abbrev answer_of_run : ExecuteQueryResultDto
answer_of_run = record {
  decision = allowed;
  request_id = some_id;
  redacted_query = query;
  duration_ms = some 0;
  validation_result = none;
  query_outcome = some three_rows;
}

run_returns :
    (execute open_guard silent_recorder ticking_clocks 2 (str query) some_id 0).0
    ≡ returned answer_of_run
unfolding execute milliseconds_since round_div ◌>>=◌
run_returns = refl

execute-IsAnswered_example : IsAnswered answer_of_run
execute-IsAnswered_example =
    execute-IsAnswered open_guard silent_recorder ticking_clocks 2 (str query) some_id 0
      answer_of_run run_returns

reject_empty_and_oversize_iff_example :
    (reject_empty_and_oversize (str query) ≡ accepted (str query)) ↔ IsSized (str query)
reject_empty_and_oversize_iff_example = reject_empty_and_oversize_iff (str query)
