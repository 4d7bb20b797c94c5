-- ===== src/UseCases/ExecuteQuery/Calls/Order.antt =====
-- The order of the calls of one run, and the entry that it leaves.
use sql_gateway_poc.Base.{
  ℕ, true, false, not, List, [], ◌∷◌, ◌≤◌, ◌≡◌, ◌⊎◌, refl, sym, subst, inl, inr, length-take, arith,
}
use sql_gateway_poc.Base.Text.{Text}
use sql_gateway_poc.Base.Exec.{Exec, Outcome, returned, raised}
use sql_gateway_poc.Base.Exec.Ensures.{Ensures, Ensures-pure, Ensures-if}
use sql_gateway_poc.Core.Values.{QueryPayload}
use sql_gateway_poc.Core.Dtos.{ValidationResultDto, QueryOutcomeDto, ExecuteQueryResultDto}
use sql_gateway_poc.Core.Ports.{AccessGuard, ObservabilityRecorder, Clocks}
use sql_gateway_poc.UseCases.ExecuteQuery.{
  record_and_return_rejected, record_and_return_allowed, record_and_return_db_error, run_and_record,
  execute, rejected_entry, allowed_entry, db_error_entry,
}
use sql_gateway_poc.UseCases.ExecuteQuery.Calls.{
  Event, scrubbed, validated, executed, recorded, log_guard, log_recorder, quiet_clocks, IsGuarded,
  count_executed, IsRefusal, IsRun,
}
use sql_gateway_poc.Base.Exec.Log.{LogIs, logged_step, quiet_step}

-- What holds of the log when the run is over.
abbrev IsSound : List Event → Type 0
IsSound log = IsGuarded log × (count_executed log ≤ 1)

abbrev pub IsOver :
    {S : Type 0} → ℕ → QueryPayload → Text → Outcome ExecuteQueryResultDto → S × List Event → Type 0
IsOver n p request_id (returned r) s =
    IsSound s.1 × (IsRefusal n p request_id r s.1 ⊎ IsRun n p request_id r s.1)
IsOver n p request_id (raised e) s = IsSound s.1

none_ran : 0 ≤ 1
none_ran = omega arith

one_ran : 1 ≤ 1
one_ran = omega arith

module _ {S : Type 0} (guard : AccessGuard S) (recorder : ObservabilityRecorder S)
    (clocks : Clocks S) (n : ℕ) (p : QueryPayload) (request_id : Text) where
  abbrev EndsWell : List Event → Exec (S × List Event) ExecuteQueryResultDto → Type 0
  EndsWell log m = Ensures (LogIs log) m (IsOver n p request_id)

  abbrev settle : (log : List Event) → IsSound log → {l : List Event} → l ≡ log → IsSound l
  settle log h e = subst IsSound (sym e) h

  refused :
      (q : Text) (v : ValidationResultDto)
      → v.is_allowed ≡ false
      → EndsWell (validated p (returned v) ∷ scrubbed p (returned q) ∷ []) (
          record_and_return_rejected
            (log_guard guard)
            (log_recorder recorder)
            (quiet_clocks clocks)
            n
            request_id
            q
            v)
  unfolding record_and_return_rejected
  refused q v refusal =
      quiet_step _ _ _
        (λ now.
          logged_step _ (recorded (rejected_entry request_id q v now)) _ _
            (λ _. Ensures-pure _ (λ s e. (
              settle _ (tt, none_ran) e,
              inl (
                q,
                v,
                rejected_entry request_id q v now,
                e,
                refusal,
                refl,
                record {
                  ids = (refl, refl);
                  queries = (refl, refl);
                  decisions = refl;
                  durations = refl;
                  samples = tt;
                },
              ),
            )))
            (λ x s. settle _ (tt, none_ran)))
        (λ x s. settle _ (tt, none_ran))

  abbrev ran : Text → ValidationResultDto → QueryOutcomeDto → List Event
  ran q v o = executed p (returned o) ∷ validated p (returned v) ∷ scrubbed p (returned q) ∷ []

  ran_ok :
      (q : Text) (v : ValidationResultDto) (o : QueryOutcomeDto) (duration_ms : ℕ)
      → v.is_allowed ≡ true
      → EndsWell (ran q v o) (
          record_and_return_allowed
            (log_guard guard)
            (log_recorder recorder)
            (quiet_clocks clocks)
            n
            request_id
            q
            o
            duration_ms)
  unfolding record_and_return_allowed
  ran_ok q v o duration_ms may =
      quiet_step _ _ _
        (λ now.
          logged_step _ (recorded (allowed_entry n request_id q o duration_ms now)) _ _
            (λ _. Ensures-pure _ (λ s e. (
              settle _ (((refl, may), tt), one_ran) e,
              inr (
                q,
                v,
                o,
                allowed_entry n request_id q o duration_ms now,
                e,
                may,
                refl,
                record {
                  ids = (refl, refl);
                  queries = (refl, refl);
                  decisions = refl;
                  durations = refl;
                  samples = omega (arith, length-take n o.rows);
                },
              ),
            )))
            (λ x s. settle _ (((refl, may), tt), one_ran)))
        (λ x s. settle _ (((refl, may), tt), one_ran))

  ran_badly :
      (q : Text) (v : ValidationResultDto) (o : QueryOutcomeDto) (duration_ms : ℕ)
      → v.is_allowed ≡ true
      → EndsWell (ran q v o) (
          record_and_return_db_error
            (log_guard guard)
            (log_recorder recorder)
            (quiet_clocks clocks)
            n
            request_id
            q
            o
            duration_ms)
  unfolding record_and_return_db_error
  ran_badly q v o duration_ms may =
      quiet_step _ _ _
        (λ now.
          logged_step _ (recorded (db_error_entry request_id q o duration_ms now)) _ _
            (λ _. Ensures-pure _ (λ s e. (
              settle _ (((refl, may), tt), one_ran) e,
              inr (
                q,
                v,
                o,
                db_error_entry request_id q o duration_ms now,
                e,
                may,
                refl,
                record {
                  ids = (refl, refl);
                  queries = (refl, refl);
                  decisions = refl;
                  durations = refl;
                  samples = tt;
                },
              ),
            )))
            (λ x s. settle _ (((refl, may), tt), one_ran)))
        (λ x s. settle _ (((refl, may), tt), one_ran))

  ran_and_recorded :
      (q : Text) (v : ValidationResultDto)
      → v.is_allowed ≡ true
      → EndsWell (validated p (returned v) ∷ scrubbed p (returned q) ∷ []) (
          run_and_record
            (log_guard guard)
            (log_recorder recorder)
            (quiet_clocks clocks)
            n
            p
            request_id
            q)
  unfolding run_and_record
  ran_and_recorded q v may =
      quiet_step _ _ _
        (λ started.
          logged_step _ (executed p) _ _
            (λ o.
              quiet_step _ _ _
                (λ now.
                  Ensures-if o.succeeded _ _ (λ _. ran_ok q v o _ may) (λ _. ran_badly q v o _ may))
                (λ x s. settle _ (((refl, may), tt), one_ran)))
            (λ x s. settle _ (((refl, may), tt), one_ran)))
        (λ x s. settle _ (tt, none_ran))

  -- Whatever the ports and the clocks do, and whether the run of the use case returns or raises:
  -- the executor is called at most once, and right after a verdict that allows the payload that it
  -- is called with. If the run returns, it has scrubbed and validated the payload of the request
  -- once each, has run this payload exactly if the verdict allows it, and has recorded one entry,
  -- last; the entry and the result agree on the request id, the scrubbed query, the decision and
  -- the duration, and the entry holds at most `max_sample_rows_in_observability` rows.
  pub execute_calls :
      Ensures
        (LogIs [])
        (execute (log_guard guard) (log_recorder recorder) (quiet_clocks clocks) n p request_id)
        (IsOver n p request_id)
  unfolding execute
  execute_calls =
      logged_step _ (scrubbed p) _ _
        (λ q.
          logged_step _ (validated p) _ _
            (λ v.
              Ensures-if (not v.is_allowed) _ _ (λ b. refused q v (ground arith))
                (λ b. ran_and_recorded q v (ground arith)))
            (λ x s. settle _ (tt, none_ran)))
        (λ x s. settle _ (tt, none_ran))
