-- ===== src/App/Service/Untouched.antt =====
-- An unsafe query does not touch the database.
use mathlib.Core.List.{Perm}
use sql_gateway_poc.Base.{
  false, not, Option, none, some, List, [], ◌≡◌, refl, sym, subst, arith, if◌then◌else◌,
}
use sql_gateway_poc.Base.Text.{Text}
use sql_gateway_poc.Base.Exec.{Exec, Exception, Outcome, returned, raised}
use sql_gateway_poc.Base.Exec.Ensures.{Ensures, Ensures-bind, Ensures-pure, Ensures-if}
use sql_gateway_poc.Base.Exec.Log.{quiet}
use sql_gateway_poc.Core.Values.{QueryPayload}
use sql_gateway_poc.Core.Dtos.{rejected, ValidationResultDto, ExecuteQueryResultDto}
use sql_gateway_poc.Core.Entry.{ObservabilityEntryDto}
use sql_gateway_poc.Core.Ports.{ObservabilityRecorder}
use sql_gateway_poc.Sql.Ast.{Sqlglot}
use sql_gateway_poc.Sql.Registry.{empty_registry, shared_dialect_key}
use sql_gateway_poc.Sql.Registry.History.{RegistryCall, after, registered}
use sql_gateway_poc.Sql.Rules.Safe.{IsSafe}
use sql_gateway_poc.Sql.Validator.Verdict.{IsSingle}
use sql_gateway_poc.Config.Settings.{GatewaySettings}
use sql_gateway_poc.Postgres.Validator.{postgres, rule_classes, validate_postgres}
use sql_gateway_poc.Postgres.Executor.Calls.{Call, log_psycopg}
use sql_gateway_poc.Observability.Sinks.{record_in_all, create_multi_sink_recorder}
use sql_gateway_poc.UseCases.ExecuteQuery.{execute, record_and_return_rejected}
use sql_gateway_poc.Http.Response.{bad_request, JsonResponse, json_response}
use sql_gateway_poc.Http.Gateway.{
  QueryResponse, execute_query_endpoint, build_response, build_rejected_response, respond,
}
use sql_gateway_poc.App.Barrier.{Refuses, refused}
use sql_gateway_poc.App.Service.{
  Environs, ServiceState, service_guard, service_recorder, service_clocks, answer_query,
}

abbrev quiet_recorder :
    {S : Type 0} → ObservabilityRecorder S → ObservabilityRecorder (S × List Call)
quiet_recorder recorder = record { record_entry = λ entry. quiet (recorder.record_entry entry) }

-- The same environs, where each call of psycopg leaves an event.
abbrev pub watched : {S : Type 0} → Environs S → Environs (S × List Call)
watched environs = record {
  psycopg = log_psycopg environs.psycopg;
  stdout_recorder = quiet_recorder environs.stdout_recorder;
  in_memory_recorder = quiet_recorder environs.in_memory_recorder;
  jsonl_file_recorder = quiet_recorder environs.jsonl_file_recorder;
  clocks = record {
    perf_counter = quiet environs.clocks.perf_counter;
    timestamp = quiet environs.clocks.timestamp;
  };
  new_uuid = quiet environs.new_uuid;
}

module _ (sqlglot : Sqlglot) {S : Type 0} (environs : Environs S) (settings : GatewaySettings) where
  abbrev pub State : Type 0
  State = ServiceState sqlglot (watched environs) settings

  -- No call of psycopg was made.
  abbrev pub IsUntouched : State → Type 0
  IsUntouched s = s.1.0.1 ≡ []

  -- The registry has the rules that the calls registered, and psycopg has not been called.
  abbrev pub IsFresh : List (RegistryCall sqlglot.Node) → State → Type 0
  IsFresh calls s = (s.0 ≡ after calls empty_registry) × IsUntouched s

  -- The answer is 400, if there is one, and no call of psycopg was made.
  abbrev pub IsTurnedDown : Outcome (JsonResponse QueryResponse) → State → Type 0
  IsTurnedDown (returned answer) s = (answer.status_code ≡ bad_request) × IsUntouched s
  IsTurnedDown (raised e) s = IsUntouched s

  abbrev IsRejection : Outcome ExecuteQueryResultDto → State → Type 0
  IsRejection (returned r) s =
      (r.decision ≡ rejected)
      × ((v : ValidationResultDto) × (r.validation_result ≡ some v))
      × IsUntouched s
  IsRejection (raised e) s = IsUntouched s

  recording-IsUntouched :
      (entry : ObservabilityEntryDto)
      → Ensures IsUntouched
          ((service_recorder sqlglot (watched environs) settings).record_entry entry)
          (λ o s. IsUntouched s)
  unfolding create_multi_sink_recorder record_in_all
  recording-IsUntouched entry = record { at = λ s h. h }

  rejecting-IsRejection :
      (request_id redacted_query : Text) (v : ValidationResultDto)
      → Ensures IsUntouched
          (record_and_return_rejected
            (service_guard sqlglot (watched environs) settings)
            (service_recorder sqlglot (watched environs) settings)
            (service_clocks sqlglot (watched environs) settings)
            settings.max_sample_rows_in_observability
            request_id
            redacted_query
            v)
          IsRejection
  unfolding record_and_return_rejected
  rejecting-IsRejection request_id redacted_query v =
      Ensures-bind (λ o s. IsUntouched s) _ _ (record { at = λ s h. h })
        (λ now.
          Ensures-bind (λ o s. IsUntouched s) _ _ (recording-IsUntouched _)
            (λ u. Ensures-pure _ (λ s h. (refl, (v, refl), h))) (λ e s h. h))
        (λ e s h. h)

  refused-IsTurnedDown :
      (content : QueryResponse) (o : Option Exception) (s : State)
      → IsUntouched s
      → IsTurnedDown (json_response bad_request content o) s
  unfolding json_response
  refused-IsTurnedDown content none s h = (refl, h)
  refused-IsTurnedDown content (some e) s h = h

  answered-IsTurnedDown :
      (r : ExecuteQueryResultDto) (s : State)
      → IsRejection (returned r) s
      → IsTurnedDown (build_response r) s
  unfolding build_response build_rejected_response respond
  answered-IsTurnedDown r s (d, (v, e), h) = rw (d, e) (refused-IsTurnedDown _ _ s h)

module _ (sqlglot : Sqlglot) {S : Type 0} (environs : Environs S) (settings : GatewaySettings)
    (calls : List (RegistryCall sqlglot.Node))
    (none_shared : registered shared_dialect_key calls ≡ [])
    (all_six : Perm (registered postgres calls) (rule_classes sqlglot)) (query : QueryPayload) where
  abbrev IsRefusal : Outcome ValidationResultDto → State sqlglot environs settings → Type 0
  IsRefusal (returned v) s = (v.is_allowed ≡ false) × IsUntouched sqlglot environs settings s
  IsRefusal (raised e) s = IsUntouched sqlglot environs settings s

  refusing :
      (o : Outcome ValidationResultDto) (s : State sqlglot environs settings)
      → Refuses o
      → IsUntouched sqlglot environs settings s
      → IsRefusal o s
  refusing (returned v) s h n = (h, n)
  refusing (raised e) s h n = n

  if_refused :
      (request_id redacted_query : Text) (v : ValidationResultDto)
      (m : Exec (State sqlglot environs settings) ExecuteQueryResultDto)
      → Ensures
          (IsRefusal (returned v))
          (if not v.is_allowed
            then record_and_return_rejected
                (service_guard sqlglot (watched environs) settings)
                (service_recorder sqlglot (watched environs) settings)
                (service_clocks sqlglot (watched environs) settings)
                settings.max_sample_rows_in_observability
                request_id
                redacted_query
                v
            else m)
          (IsRejection sqlglot environs settings)
  if_refused request_id redacted_query v m =
      Ensures-if (not v.is_allowed) _ _
        (λ b. record {
          at = λ s h.
              (rejecting-IsRejection sqlglot environs settings request_id redacted_query v).at s
                h.1;
        })
        (λ b. record { at = λ s h. absurd (ground (arith, b, h.0)) })

  -- With the six rules registered for Postgres, in any order, and none for all dialects, whatever
  -- the driver, the sinks, the clocks and the source of request ids do: for a query that is not
  -- one safe statement, the service makes no call of psycopg at all, not even to connect; and if
  -- it answers, the answer is 400.
  pub answer_query-IsTurnedDown :
      ¬ IsSingle sqlglot postgres (IsSafe sqlglot) query
      → Ensures
          (IsFresh sqlglot environs settings calls)
          (answer_query sqlglot (watched environs) settings query)
          (IsTurnedDown sqlglot environs settings)
  unfolding execute_query_endpoint execute
  answer_query-IsTurnedDown unsafe =
      Ensures-bind (λ o s. IsFresh sqlglot environs settings calls s) _ _ (record { at = λ s h. h })
        (λ request_id.
          Ensures-bind (IsRejection sqlglot environs settings) _ _
            (Ensures-bind (λ o s. IsFresh sqlglot environs settings calls s) _ _
              (record { at = λ s h. h })
              (λ redacted_query.
                Ensures-bind IsRefusal _ _
                  (record {
                    at = λ s h.
                        refusing _ _
                          (subst (λ r. Refuses (validate_postgres sqlglot query r).0) (sym h.0)
                            (refused sqlglot calls none_shared all_six query unsafe))
                          h.1;
                  })
                  (λ v. if_refused request_id redacted_query v _) (λ e s h. h))
              (λ e s h. h.1))
            (λ r. record { at = λ s h. answered-IsTurnedDown sqlglot environs settings r s h })
            (λ e s h. h))
        (λ e s h. h.1)
