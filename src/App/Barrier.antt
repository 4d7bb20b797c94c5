-- ===== src/App/Barrier.antt =====
-- A query that is not safe never reaches the database.
use mathlib.Core.List.{Perm}
use sql_gateway_poc.Base.{
  ℕ, false, not, List, [], ◌≡◌, refl, sym, subst, arith, inl, inr, Bool-cases,
}
use sql_gateway_poc.Base.Text.{Text}
use sql_gateway_poc.Base.Exec.{Outcome, returned, raised}
use sql_gateway_poc.Base.Exec.Ensures.{Ensures, Ensures-bind, Ensures-pure, Ensures-if}
use sql_gateway_poc.Core.Values.{QueryPayload}
use sql_gateway_poc.Core.Dtos.{rejected, ValidationResultDto, ExecuteQueryResultDto}
use sql_gateway_poc.Core.Ports.{QueryExecutor, ObservabilityRecorder, Clocks}
use sql_gateway_poc.Sql.Ast.{Sqlglot}
use sql_gateway_poc.Sql.Registry.{RuleRegistry, empty_registry, shared_dialect_key}
use sql_gateway_poc.Sql.Registry.History.{RegistryCall, after, registered}
use sql_gateway_poc.Sql.Rules.Safe.{IsSafe}
use sql_gateway_poc.Sql.Validator.Verdict.{IsSingle, Allows}
use sql_gateway_poc.Postgres.Validator.{postgres, rule_classes, validate_postgres}
use sql_gateway_poc.Postgres.Validator.Safety.{validate_postgres_iff}
use sql_gateway_poc.UseCases.ExecuteQuery.{execute, record_and_return_rejected}
use sql_gateway_poc.UseCases.ExecuteQuery.Calls.{
  Event, log_guard, log_recorder, quiet_clocks, count_executed,
}
use sql_gateway_poc.App.{postgres_guard, recorder_beside, clocks_beside}

-- The executor has not been called, and a result that is returned is a rejection.
abbrev pub IsBarred : {T : Type 0} → Outcome ExecuteQueryResultDto → T × List Event → Type 0
IsBarred (returned r) s = (count_executed s.1 ≡ 0) × (r.decision ≡ rejected)
IsBarred (raised e) s = count_executed s.1 ≡ 0

-- The rules that the calls register are those of the registry, and nothing has been executed.
abbrev pub IsReady :
    (sqlglot : Sqlglot) {S : Type 0}
    → List (RegistryCall sqlglot.Node)
    → (RuleRegistry sqlglot.Node × S) × List Event
    → Type 0
IsReady sqlglot calls s = (s.0.0 ≡ after calls empty_registry) × (count_executed s.1 ≡ 0)

-- What the validator returns, if it returns, is a refusal.
abbrev pub Refuses : Outcome ValidationResultDto → Type 0
Refuses (returned v) = v.is_allowed ≡ false
Refuses (raised e) = Unit

not_allowing : (o : Outcome ValidationResultDto) → ¬ Allows o → Refuses o
not_allowing (raised e) h = tt
not_allowing (returned v) h = elim (Bool-cases v.is_allowed) [
  | inl may ↦ absurd (h may)
  | inr no_way ↦ no_way
]

module _ (sqlglot : Sqlglot) (calls : List (RegistryCall sqlglot.Node))
    (none_shared : registered shared_dialect_key calls ≡ [])
    (all_six : Perm (registered postgres calls) (rule_classes sqlglot)) (query : QueryPayload) where
  -- The validator refuses it.
  pub refused :
      ¬ IsSingle sqlglot postgres (IsSafe sqlglot) query
      → Refuses (validate_postgres sqlglot query (after calls empty_registry)).0
  refused unsafe =
      not_allowing _
        (λ may. unsafe ((validate_postgres_iff sqlglot calls none_shared all_six query).0 may))

module _ (sqlglot : Sqlglot) (calls : List (RegistryCall sqlglot.Node))
    (none_shared : registered shared_dialect_key calls ≡ [])
    (all_six : Perm (registered postgres calls) (rule_classes sqlglot)) {S : Type 0}
    (executor : QueryExecutor S) (recorder : ObservabilityRecorder S) (clocks : Clocks S)
    (max_sample_rows : ℕ) (query : QueryPayload) (request_id : Text) where
  open sqlglot use {Node}

  abbrev State : Type 0
  State = (RuleRegistry Node × S) × List Event

  abbrev NothingRan : State → Type 0
  NothingRan s = count_executed s.1 ≡ 0

  abbrev IsRefused : Outcome ValidationResultDto → State → Type 0
  IsRefused (returned v) s = (v.is_allowed ≡ false) × NothingRan s
  IsRefused (raised e) s = NothingRan s

  refusing :
      (o : Outcome ValidationResultDto) (s : State) → Refuses o → NothingRan s → IsRefused o s
  refusing (returned v) s h n = (h, n)
  refusing (raised e) s h n = n

  rejection-IsBarred :
      (redacted_query : Text) (v : ValidationResultDto)
      → Ensures
          (λ s. (v.is_allowed ≡ false) × NothingRan s)
          (record_and_return_rejected
            (log_guard (postgres_guard sqlglot executor))
            (log_recorder (recorder_beside sqlglot recorder))
            (quiet_clocks (clocks_beside sqlglot clocks))
            max_sample_rows
            request_id
            redacted_query
            v)
          IsBarred
  unfolding record_and_return_rejected
  rejection-IsBarred redacted_query v =
      Ensures-bind (λ o s. NothingRan s) _ _ (record { at = λ s h. h.1 })
        (λ now.
          Ensures-bind (λ o s. NothingRan s) _ _ (record { at = λ s h. h })
            (λ u. Ensures-pure _ (λ s h. (h, refl))) (λ e s h. h))
        (λ e s h. h)

  -- With the six rules registered for Postgres, in any order, and none for all dialects: a query
  -- that is not one safe statement never reaches the executor, whatever executor, recorder and
  -- clocks do; and if the run of the use case returns, its decision is a rejection.
  pub unsafe-IsBarred :
      ¬ IsSingle sqlglot postgres (IsSafe sqlglot) query
      → Ensures
          (IsReady sqlglot calls)
          (execute
            (log_guard (postgres_guard sqlglot executor))
            (log_recorder (recorder_beside sqlglot recorder))
            (quiet_clocks (clocks_beside sqlglot clocks))
            max_sample_rows
            query
            request_id)
          IsBarred
  unfolding execute
  unsafe-IsBarred unsafe =
      Ensures-bind (λ o s. IsReady sqlglot calls s) _ _ (record { at = λ s h. h })
        (λ redacted_query.
          Ensures-bind IsRefused _ _
            (record {
              at = λ s h.
                  refusing _ _
                    (subst (λ r. Refuses (validate_postgres sqlglot query r).0) (sym h.0)
                      (refused sqlglot calls none_shared all_six query unsafe))
                    h.1;
            })
            (λ v.
              Ensures-if (not v.is_allowed) _ _ (λ b. rejection-IsBarred redacted_query v)
                (λ b. record { at = λ s h. absurd (ground (arith, b, h.0)) }))
            (λ e s h. h))
        (λ e s h. h.1)
