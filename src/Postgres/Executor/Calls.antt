-- ===== src/Postgres/Executor/Calls.antt =====
-- The calls that the executor makes of psycopg: each leaves an event, and a log of one run is in
-- order.
-- infrastructure/persistence/postgres/query_executor_adapter.py
pub mod Blocks
pub mod Transactions
pub mod Settled
use sql_gateway_poc.Base.{ℕ, Bool, true, false, Option, none, some, List, [], ◌∷◌, ◌++◌, ◌≡◌, ◌⊎◌}
use sql_gateway_poc.Base.Text.{Text}
use sql_gateway_poc.Base.Exec.{Exec, Outcome, returned, raised}
use sql_gateway_poc.Base.Exec.Log.{logged, quiet}
use sql_gateway_poc.Core.Values.{Cell}
use sql_gateway_poc.Postgres.Executor.{Psycopg, set_timeout_statement}

pub data Call : Type 0 where
  connected : Text → Outcome {0} Unit → Call
  left_connection : Bool → Outcome {0} Unit → Call
  opened : Outcome {0} Unit → Call
  left_cursor : Bool → Outcome {0} Unit → Call
  ran : Text → List Text → Outcome {0} Unit → Call
  fetched : ℕ → Outcome (List (List Cell)) → Call
  fetched_one : Outcome (Option (List Cell)) → Call
  committed : Outcome {0} Unit → Call

abbrev pub log_psycopg : {S : Type 0} → Psycopg S → Psycopg (S × List Call)
log_psycopg psycopg = record {
  connect = λ url timeout. logged (connected url) (psycopg.connect url timeout);
  leave_connection = λ failing. logged (left_connection failing) (psycopg.leave_connection failing);
  open_cursor = logged opened psycopg.open_cursor;
  leave_cursor = λ failing. logged (left_cursor failing) (psycopg.leave_cursor failing);
  cursor_execute =
      λ query parameters. logged (ran query parameters) (psycopg.cursor_execute query parameters);
  description = λ s. psycopg.description s.0;
  rowcount = λ s. psycopg.rowcount s.0;
  fetchmany = λ n. logged (fetched n) (psycopg.fetchmany n);
  fetchone = logged fetched_one psycopg.fetchone;
  commit = logged committed psycopg.commit;
}

-- The log of a query that was committed, newest call first; `reads` is what was fetched of it.
abbrev pub committed_log : Text → Text → Text → List Call → List Call
committed_log url timeout query reads =
    left_connection false (returned tt)
    ∷ left_cursor false (returned tt)
    ∷ committed (returned tt)
    ∷ (reads
        ++ ran query [] (returned tt)
          ∷ ran set_timeout_statement (timeout ∷ []) (returned tt)
          ∷ opened (returned tt)
          ∷ connected url (returned tt)
          ∷ [])

-- Nothing was fetched, or one batch of at most `n` rows was asked for.
abbrev pub IsReading : ℕ → List Call → Type 0
IsReading n reads =
    (reads ≡ []) ⊎ ((rows : List (List Cell)) × (reads ≡ fetched n (returned rows) ∷ []))

-- Whether a commit returned.
abbrev pub IsUncommitted : List Call → Type 0
IsUncommitted [] = Unit
IsUncommitted (committed (returned _) ∷ log) = ⊥
IsUncommitted (committed (raised _) ∷ log) = IsUncommitted log
IsUncommitted (_ ∷ log) = IsUncommitted log

-- The connection was never made, or leaving it is the last call.
abbrev pub IsLeft : List Call → Type 0
IsLeft (connected url (raised _) ∷ []) = Unit
IsLeft (left_connection failing o ∷ log) = Unit
IsLeft _ = ⊥
