-- ===== src/App/Service/Served.antt =====
-- Each query is answered.
use sql_gateway_poc.Base.{List, ◌≡◌, refl, sym, subst}
use sql_gateway_poc.Base.Text.{Text}
use sql_gateway_poc.Base.Exec.{Exec, Outcome, returned, raised}
use sql_gateway_poc.Base.Exec.Ensures.{Ensures, Ensures-bind}
use sql_gateway_poc.Base.Exec.Raises.{IsRaisedIn, Returns, Raises-inside}
use sql_gateway_poc.Core.Values.{QueryPayload}
use sql_gateway_poc.Core.Dtos.{ExecuteQueryResultDto}
use sql_gateway_poc.Core.Entry.{ObservabilityEntryDto}
use sql_gateway_poc.Core.Ports.{ObservabilityRecorder}
use sql_gateway_poc.Sql.Ast.{Sqlglot, IsParser}
use sql_gateway_poc.Sql.Registry.{RuleRegistry}
use sql_gateway_poc.Sql.Validator.Returns.{IsReturned, validate-IsReturned}
use sql_gateway_poc.Sql.Scrubber.Returns.{scrub-IsReturned}
use sql_gateway_poc.Postgres.Validator.{postgres, validate_postgres}
use sql_gateway_poc.Config.Settings.{GatewaySettings}
use sql_gateway_poc.Postgres.Executor.Total.{IsDriver, execute_postgres-Returns}
use sql_gateway_poc.Observability.Sinks.{record_in_all, create_multi_sink_recorder}
use sql_gateway_poc.Observability.Sinks.Isolation.{record_in_all_isolates}
use sql_gateway_poc.UseCases.ExecuteQuery.{execute}
use sql_gateway_poc.UseCases.ExecuteQuery.Total.{DoReturn, execute-Returns}
use sql_gateway_poc.Http.Response.{JsonResponse}
use sql_gateway_poc.Http.Gateway.{QueryResponse, execute_query_endpoint}
use sql_gateway_poc.Http.Gateway.Answers.{IsAnswered, Answers, Responds, execute-IsAnswered}
use sql_gateway_poc.Http.Response.Rendering.{IsRefusal}
use sql_gateway_poc.Http.Gateway.Json.{IsJson}
use sql_gateway_poc.Http.Routes.Declared.{IsDeclared, IsDeclaredOnReturn, response-IsDeclared}
use sql_gateway_poc.Base.Exec.Log.{quiet}
use sql_gateway_poc.App.{beside, scrub_postgres}
use sql_gateway_poc.App.Service.{
  Environs, ServiceState, executor_settings, service_guard, service_recorder, service_clocks,
  answer_query,
}

record_in_all-Returns :
    {S : Type 0} (recorders : List (Text × ObservabilityRecorder S)) (entry : ObservabilityEntryDto)
    → Returns (record_in_all recorders entry)
record_in_all-Returns recorders entry = record {
  at = λ (s, log) p.
      subst (λ r. IsRaisedIn (λ e. ⊥) r.0 r.1) (sym (record_in_all_isolates recorders entry s log))
        tt;
}

sinks-Returns :
    {S : Type 0} (stdout in_memory jsonl_file : ObservabilityRecorder S)
    (entry : ObservabilityEntryDto)
    → Returns ((create_multi_sink_recorder stdout in_memory jsonl_file).record_entry entry)
unfolding create_multi_sink_recorder
sinks-Returns stdout in_memory jsonl_file entry = record_in_all-Returns _ entry

module _ (sqlglot : Sqlglot) {S : Type 0} (environs : Environs S) (settings : GatewaySettings)
    (query : QueryPayload) where
  abbrev run : Text → ServiceState sqlglot environs settings → Outcome ExecuteQueryResultDto
  run request_id s =
      (execute (service_guard sqlglot environs settings)
        (service_recorder sqlglot environs settings) (service_clocks sqlglot environs settings)
        settings.max_sample_rows_in_observability query request_id s).0

  -- A result that a run of the use case on this query returns.
  abbrev IsResult : ExecuteQueryResultDto → Type 0
  IsResult r =
      (request_id : Text) × (s : ServiceState sqlglot environs settings) × (run request_id s
        ≡ returned r)

  -- The answer to such a result; or the refusal to render one whose body JSON cannot hold.
  abbrev pub IsServed :
      Outcome (JsonResponse QueryResponse) → ServiceState sqlglot environs settings → Type 0
  IsServed (returned answer) s =
      (r : ExecuteQueryResultDto) × IsResult r
      × Answers r answer
      × IsDeclared answer
      × IsJson answer.content
  IsServed (raised e) s =
      (r : ExecuteQueryResultDto) × (answer : JsonResponse QueryResponse) × IsResult r
      × Answers r answer
      × (¬ IsJson answer.content)
      × IsRefusal e

  responded :
      (r : ExecuteQueryResultDto) (answer : JsonResponse QueryResponse)
      (s : ServiceState sqlglot environs settings) (o : Outcome (JsonResponse QueryResponse))
      → IsResult r
      → Answers r answer
      → Responds answer o
      → IsDeclaredOnReturn o
      → IsServed o s
  responded r answer s (returned given) result answers (e, json) declared = (
    r,
    result,
    subst (Answers r) (sym e) answers,
    declared,
    subst (λ a. IsJson a.content) (sym e) json,
  )
  responded r answer s (raised e) result answers (refused, kind) declared =
      (r, answer, result, answers, refused, kind)

  abbrev CanBeAnswered :
      Outcome ExecuteQueryResultDto → ServiceState sqlglot environs settings → Type 0
  CanBeAnswered (returned r) s = IsResult r × IsAnswered r
  CanBeAnswered (raised e) s = ⊥

module _ (sqlglot : Sqlglot) {S : Type 0} (environs : Environs S) (settings : GatewaySettings)
    (parser : IsParser sqlglot postgres) (driver : IsDriver environs.psycopg)
    (counts : Returns environs.clocks.perf_counter) (tells : Returns environs.clocks.timestamp)
    (names : Returns environs.new_uuid) where
  abbrev State : Type 0
  State = ServiceState sqlglot environs settings

  -- What the driver, the clocks and the source of ids do is done on their part of the state.
  on_environs : {A : Type 0} (m : Exec S A) → Returns m → Returns {S = State} (beside (quiet m))
  on_environs m h = Raises-inside (λ e. ⊥) m (λ (s : State). s.1.0) (λ s s'. (s.0, (s', s.1.1))) h

  settled : {A : Type 0} (o : Outcome A) (s : State) → IsReturned o → IsRaisedIn (λ e. ⊥) o s
  settled (returned a) s h = tt
  settled (raised e) s h = h

  scrub_postgres-IsReturned : (query : QueryPayload) → IsReturned (scrub_postgres sqlglot query)
  unfolding scrub_postgres
  scrub_postgres-IsReturned query = scrub-IsReturned sqlglot postgres parser query

  validate_postgres-IsReturned :
      (query : QueryPayload) (r : RuleRegistry sqlglot.Node)
      → IsReturned (validate_postgres sqlglot query r).0
  unfolding validate_postgres
  validate_postgres-IsReturned query r = validate-IsReturned sqlglot postgres parser r query

  ports :
      DoReturn
        (service_guard sqlglot environs settings)
        (service_recorder sqlglot environs settings)
        (service_clocks sqlglot environs settings)
  ports = record {
    scrub = λ query. record { at = λ s p. settled _ s (scrub_postgres-IsReturned query) };
    validate = λ query. record { at = λ s p. settled _ _ (validate_postgres-IsReturned query s.0) };
    execute_query = λ query.
        on_environs _
          (execute_postgres-Returns environs.psycopg (executor_settings settings) driver query);
    record_entry = λ entry.
        Raises-inside (λ e. ⊥) _ (λ (s : State). s.1) (λ s s'. (s.0, s'))
          (sinks-Returns environs.stdout_recorder environs.in_memory_recorder
            environs.jsonl_file_recorder entry);
    perf_counter = on_environs environs.clocks.perf_counter counts;
    timestamp = on_environs environs.clocks.timestamp tells;
  }

  answered :
      (query : QueryPayload) (o : Outcome ExecuteQueryResultDto) (s : State)
      → IsRaisedIn (λ e. ⊥) o s
      → ((r : ExecuteQueryResultDto)
          → o ≡ returned r
          → IsResult sqlglot environs settings query r × IsAnswered r)
      → CanBeAnswered sqlglot environs settings query o s
  answered query (returned r) s h k = k r refl
  answered query (raised e) s h k = h

  execute-CanBeAnswered :
      (query : QueryPayload) (request_id : Text)
      → Ensures
          (λ s. Unit)
          (execute
            (service_guard sqlglot environs settings)
            (service_recorder sqlglot environs settings)
            (service_clocks sqlglot environs settings)
            settings.max_sample_rows_in_observability
            query
            request_id)
          (CanBeAnswered sqlglot environs settings query)
  execute-CanBeAnswered query request_id = record {
    at = λ s p.
        let guard = service_guard sqlglot environs settings in
        let recorder = service_recorder sqlglot environs settings in
        let clocks = service_clocks sqlglot environs settings in
        let n = settings.max_sample_rows_in_observability in
        answered query _ _
          ((execute-Returns guard recorder clocks n ports query request_id).at s tt)
          (λ r e. (
            (request_id, s, e),
            execute-IsAnswered guard recorder clocks n query request_id s r e,
          ));
  }

  -- With a driver that raises only psycopg.Error, and clocks and request ids that return, and a
  -- sqlglot that raises only SqlglotError: the service comes to an answer for each query, text or
  -- not, safe or not, from every state, also where a sink fails. The answer is one to a result that
  -- a run of the use case on this query returns: 200, 400 or 502 by its decision, with the body of
  -- the decision, whose model the route declares for this status. It is sent, unless JSON cannot
  -- hold its body: a cell is NaN or an infinity, or a text has a surrogate. Then a ValueError or a
  -- TypeError gets out, and no other exception ever does.
  pub answer_query-IsServed :
      (query : QueryPayload)
      → Ensures
          (λ s. Unit)
          (answer_query sqlglot environs settings query)
          (IsServed sqlglot environs settings query)
  unfolding execute_query_endpoint
  answer_query-IsServed query =
      Ensures-bind (λ o s. IsRaisedIn (λ e. ⊥) o s) _ _ (on_environs environs.new_uuid names)
        (λ request_id.
          Ensures-bind (CanBeAnswered sqlglot environs settings query) _ _
            (execute-CanBeAnswered query request_id)
            (λ r. record {
              at = λ s (result, (answer, answers, responds)).
                  responded sqlglot environs settings query r answer s _ result answers responds
                    (response-IsDeclared r);
            })
            (λ e s h. absurd h))
        (λ e s h. absurd h)
