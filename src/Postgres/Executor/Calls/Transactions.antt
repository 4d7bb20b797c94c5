-- ===== src/Postgres/Executor/Calls/Transactions.antt =====
-- The body of the transaction: it runs the query under the time limit, and commits last.
use sql_gateway_poc.Base.{
  ◌+◌, true, Option, none, some, List, [], ◌∷◌, ◌++◌, ◌≡◌, refl, sym, subst, inl, inr, ap, ◌∙◌,
}
use sql_gateway_poc.Base.Text.{Text}
use sql_gateway_poc.Base.Decimal.{decimal}
use sql_gateway_poc.Base.Exec.{Outcome, returned, raised, ◌>>=◌, pure}
use sql_gateway_poc.Base.Exec.Ensures.{Ensures, Ensures-bind, Ensures-pure}
use sql_gateway_poc.Base.Exec.Log.{LogIs, logged, logged_step, still_step}
use sql_gateway_poc.Core.Dtos.{QueryOutcomeDto}
use sql_gateway_poc.Postgres.Executor.{
  Psycopg, ExecutorSettings, set_timeout_statement, read_outcome, build_read_outcome, assert_some,
  names_of, outcome_of, run_in_transaction,
}
use sql_gateway_poc.Postgres.Executor.Calls.{
  Call, connected, opened, ran, fetched, committed, log_psycopg, IsReading, IsUncommitted,
}

module _ {S : Type 0} (psycopg : Psycopg S) (settings : ExecutorSettings) (query : Text) where
  abbrev pub timeout : Text
  timeout = decimal settings.query_timeout_ms ++ b'm' ∷ b's' ∷ []

  -- The log once both blocks are entered, and once the query has run.
  abbrev pub entered : List Call
  entered = opened (returned tt) ∷ connected settings.database_url (returned tt) ∷ []

  abbrev pub queried : List Call
  queried =
      ran query [] (returned tt) ∷ ran set_timeout_statement (timeout ∷ []) (returned tt) ∷ entered

  abbrev IsRead : List Call → Type 0
  IsRead log =
      (reads : List Call) × IsReading (settings.max_results + 1) reads × (log ≡ reads ++ queried)

  -- The body: it commits and succeeds, or it raises and has not committed.
  abbrev pub BodyEnds : Outcome QueryOutcomeDto → List Call → Type 0
  BodyEnds (returned r) log =
      (r.succeeded ≡ true)
      × ((reads : List Call) × IsReading (settings.max_results + 1) reads
          × (log ≡ committed (returned tt) ∷ (reads ++ queried)))
  BodyEnds (raised e) log = IsUncommitted log

  -- The outcome of the query: still in the block, after what was fetched.
  abbrev OutcomeEnds : Outcome QueryOutcomeDto → S × List Call → Type 0
  OutcomeEnds (returned r) s = (r.succeeded ≡ true) × IsRead s.1
  OutcomeEnds (raised e) s = IsUncommitted s.1

  not_yet : (log : List Call) → IsUncommitted log → {l : List Call} → l ≡ log → IsUncommitted l
  not_yet log h e = subst IsUncommitted (sym e) h

  assert_keeps :
      (d : Option (List Text)) (s : S × List Call)
      → (assert_some (log_psycopg psycopg) settings d s).1 ≡ s
  assert_keeps none s = refl
  assert_keeps (some names) s = refl

  names_keep :
      (d : Option (List Text)) (s : S × List Call)
      → (names_of (log_psycopg psycopg) settings d s).1 ≡ s
  names_keep none s = refl
  names_keep (some names) s = refl

  read_ends :
      Ensures (LogIs queried) (build_read_outcome (log_psycopg psycopg) settings) OutcomeEnds
  unfolding build_read_outcome read_outcome
  read_ends =
      still_step queried _ _ (λ s. refl)
        (λ asserted.
          still_step queried _ _ (assert_keeps asserted)
            (λ u.
              logged_step queried (fetched (settings.max_results + 1)) _ _
                (λ rows.
                  let log = fetched (settings.max_results + 1) (returned rows) ∷ queried in
                  still_step log _ _ (λ s. refl)
                    (λ described.
                      still_step log _ _ (names_keep described)
                        (λ names. Ensures-pure _ (λ s p. (
                          refl,
                          (
                            fetched (settings.max_results + 1) (returned rows) ∷ [],
                            inr (rows, refl),
                            p,
                          ),
                        )))
                        (λ e s. not_yet log tt))
                    (λ e s. not_yet log tt))
                (λ e s. not_yet _ tt))
            (λ e s. not_yet queried tt))
        (λ e s. not_yet queried tt)

  outcome_ends :
      (d : Option (List Text))
      → Ensures (LogIs queried) (outcome_of (log_psycopg psycopg) settings d) OutcomeEnds
  outcome_ends none = record { at = λ s p. (refl, ([], inl refl, p)) }
  outcome_ends (some names) = read_ends

  reads-IsUncommitted :
      (reads : List Call)
      → IsReading (settings.max_results + 1) reads
      → IsUncommitted (reads ++ queried)
  reads-IsUncommitted reads h = elim h [
    | inl e ↦ subst (λ l. IsUncommitted (l ++ queried)) (sym e) tt
    | inr (rows, e) ↦ subst (λ l. IsUncommitted (l ++ queried)) (sym e) tt
  ]

  abbrev pub OnLog :
      (Outcome QueryOutcomeDto → List Call → Type 0)
      → Outcome QueryOutcomeDto
      → S × List Call
      → Type 0
  OnLog P o s = P o s.1

  commit_ends :
      (r : QueryOutcomeDto)
      → Ensures
          (OutcomeEnds (returned r))
          (logged committed psycopg.commit >>= λ _. pure r)
          (OnLog BodyEnds)
  commit_ends r = record {
    at = λ s (good, (reads, batch, p)).
        (logged_step {Q = OnLog BodyEnds} s.1 committed psycopg.commit (λ _. pure r)
            (λ u.
              Ensures-pure r
                (λ t q. (good, (reads, batch, q ∙ ap (λ l. committed (returned u) ∷ l) p))))
            (λ e t q.
              not_yet (committed (raised e) ∷ (reads ++ queried)) (reads-IsUncommitted reads batch)
                (q ∙ ap (λ l. committed (raised e) ∷ l) p))).at
          s refl;
  }

  pub body_ends :
      Ensures
        (LogIs entered)
        (run_in_transaction (log_psycopg psycopg) settings query)
        (OnLog BodyEnds)
  unfolding run_in_transaction
  body_ends =
      logged_step entered (ran set_timeout_statement (timeout ∷ [])) _ _
        (λ u.
          logged_step _ (ran query []) _ _
            (λ v.
              still_step queried _ _ (λ s. refl)
                (λ described.
                  Ensures-bind OutcomeEnds _ _ (outcome_ends described) commit_ends (λ e s h. h))
                (λ e s. not_yet queried tt))
            (λ e s. not_yet _ tt))
        (λ e s. not_yet _ tt)
