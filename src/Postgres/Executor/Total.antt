-- ===== src/Postgres/Executor/Total.antt =====
-- With a driver that raises only psycopg.Error, the executor always returns an outcome.
use sql_gateway_poc.Base.{ℕ, Bool, Option, none, some, List, [], ◌≡◌, refl, ◌+◌}
use sql_gateway_poc.Base.Text.{Text}
use sql_gateway_poc.Base.Exec.{
  Exec, Outcome, returned, raised, Exception, assertion_error, psycopg_error, foreign, ◌>>=◌,
}
use sql_gateway_poc.Base.Exec.Ensures.{Ensures, Ensures-pure, Ensures-bind}
use sql_gateway_poc.Base.Exec.Raises.{
  IsRaisedIn, RaisesFrom, Raises, Returns, Raises-pure, Raises-bind, Raises-using,
}
use sql_gateway_poc.Core.Values.{QueryPayload, str, dict, list}
use sql_gateway_poc.Core.Dtos.{QueryOutcomeDto}
use sql_gateway_poc.Postgres.Executor.{
  Psycopg, ExecutorSettings, build_error_outcome, recover, reading, outcome_of, build_read_outcome,
  run_in_transaction, execute_postgres, except_psycopg,
}

abbrev pub IsDbError : Exception → Type 0
IsDbError (psycopg_error e) = Unit
IsDbError assertion_error = ⊥
IsDbError (foreign name) = ⊥

module _ {S : Type 0} (psycopg : Psycopg S) where
  -- The cursor has columns.
  abbrev pub HasColumns : S → Type 0
  HasColumns s = (names : List Text) × (psycopg.description s ≡ some names)

  abbrev pub KeepsColumns : {A : Type 0} → Outcome A → S → Type 0
  KeepsColumns (returned a) s = HasColumns s
  KeepsColumns (raised e) s = IsDbError e

  -- The documented behaviour of psycopg: a call returns or raises a psycopg.Error, and fetching
  -- rows leaves the columns of the cursor in place.
  pub record IsDriver : Type 0 where
    pub connect : (url : Text) (timeout : Option ℕ) → Raises IsDbError (psycopg.connect url timeout)
    pub leave_connection : (failing : Bool) → Raises IsDbError (psycopg.leave_connection failing)
    pub open_cursor : Raises IsDbError psycopg.open_cursor
    pub leave_cursor : (failing : Bool) → Raises IsDbError (psycopg.leave_cursor failing)
    pub cursor_execute :
        (query : Text) (parameters : List Text)
        → Raises IsDbError (psycopg.cursor_execute query parameters)
    pub fetchmany : (n : ℕ) → Ensures HasColumns (psycopg.fetchmany n) KeepsColumns
    pub commit : Raises IsDbError psycopg.commit

module _ {S : Type 0} (psycopg : Psycopg S) (settings : ExecutorSettings)
    (driver : IsDriver psycopg) where
  -- Reads the columns, on a state that has some, and goes on with them.
  read_columns :
      {A : Type 0} (f : Option (List Text) → Exec S A)
      → ((names : List Text) → RaisesFrom (HasColumns psycopg) IsDbError (f (some names)))
      → RaisesFrom
          (HasColumns psycopg)
          IsDbError
          (reading psycopg settings psycopg.description >>= f)
  unfolding ◌>>=◌
  read_columns f next = record { at = λ s (names, e). rw e ((next names).at s (names, e)) }

  build_read_outcome-Raises :
      RaisesFrom (HasColumns psycopg) IsDbError (build_read_outcome psycopg settings)
  unfolding build_read_outcome
  build_read_outcome-Raises = read_columns _ λ asserted.
      Ensures-bind (KeepsColumns psycopg) _ _ (Ensures-pure tt (λ s p. p))
        (λ _.
          Ensures-bind (KeepsColumns psycopg) _ _ (driver.fetchmany (settings.max_results + 1))
            (λ fetched_rows. read_columns _ λ names.
              Ensures-bind (λ o s. IsRaisedIn IsDbError o s) _ _ (Ensures-pure names (λ s p. tt))
                (λ column_names. Ensures-pure _ (λ s p. tt)) (λ e s r. r))
            (λ e s r. r))
        (λ e s r. r)

  -- What the cursor says after the query decides what is read.
  abbrev IsDescribed : Outcome (Option (List Text)) → S → Type 0
  IsDescribed (returned o) s = psycopg.description s ≡ o
  IsDescribed (raised e) s = IsDbError e

  outcome_of-Raises :
      (o : Option (List Text))
      → RaisesFrom (λ s. psycopg.description s ≡ o) IsDbError (outcome_of psycopg settings o)
  outcome_of-Raises none = record { at = λ s p. tt }
  outcome_of-Raises (some names) = record { at = λ s p. build_read_outcome-Raises.at s (names, p) }

  run_in_transaction-Raises :
      (query : Text) → Raises IsDbError (run_in_transaction psycopg settings query)
  unfolding run_in_transaction
  run_in_transaction-Raises query = Raises-bind IsDbError _ _ (driver.cursor_execute _ _) λ _.
      Raises-bind IsDbError _ _ (driver.cursor_execute query []) λ _.
        Ensures-bind IsDescribed _ _ (record { at = λ s p. refl })
          (λ described.
            Ensures-bind (λ o s. IsRaisedIn IsDbError o s) _ _ (outcome_of-Raises described)
              (λ query_outcome.
                Raises-bind IsDbError _ _ driver.commit (λ _. Raises-pure IsDbError query_outcome))
              (λ e s r. r))
          (λ e s r. r)

  recovers :
      (o : Outcome QueryOutcomeDto) (s : S)
      → IsRaisedIn IsDbError o s
      → IsRaisedIn (λ e. ⊥) (recover build_error_outcome o) s
  recovers (returned r) s h = tt
  recovers (raised (psycopg_error e)) s h = tt
  recovers (raised assertion_error) s h = h
  recovers (raised (foreign name)) s h = h

  -- The executor returns an outcome for each payload.
  pub execute_postgres-Returns :
      (payload : QueryPayload) → Returns (execute_postgres psycopg settings payload)
  unfolding execute_postgres except_psycopg
  execute_postgres-Returns (str query) =
      let m =
        Raises-using IsDbError (psycopg.connect settings.database_url none) psycopg.leave_connection
          _ (driver.connect settings.database_url none) driver.leave_connection
          (Raises-using IsDbError psycopg.open_cursor psycopg.leave_cursor
            (run_in_transaction psycopg settings query) driver.open_cursor driver.leave_cursor
            (run_in_transaction-Raises query)) in
      record { at = λ s p. recovers _ _ (m.at s tt) }
  execute_postgres-Returns (dict d) = record { at = λ s p. tt }
  execute_postgres-Returns (list l) = record { at = λ s p. tt }
