-- ===== src/Postgres/Executor/Calls/Settled.antt =====
-- A query that succeeded was run under the time limit and committed; one that did not was not
-- committed, unless leaving the blocks failed; and the connection is left in each case.
use sql_gateway_poc.Base.{◌+◌, true, false, none, List, [], ◌∷◌, ◌++◌, ◌≡◌, ◌⊎◌, refl, inl, inr, ap}
use sql_gateway_poc.Base.Text.{Text}
use sql_gateway_poc.Base.Exec.{
  Outcome, returned, raised, Exception, assertion_error, psycopg_error, foreign,
}
use sql_gateway_poc.Base.Exec.Ensures.{Ensures}
use sql_gateway_poc.Base.Exec.Log.{LogIs}
use sql_gateway_poc.Core.Values.{str}
use sql_gateway_poc.Core.Dtos.{QueryOutcomeDto}
use sql_gateway_poc.Postgres.Executor.{
  Psycopg, ExecutorSettings, build_error_outcome, recover, execute_postgres, except_psycopg,
  run_in_transaction,
}
use sql_gateway_poc.Postgres.Executor.Calls.{
  Call, connected, left_connection, opened, left_cursor, committed, log_psycopg, committed_log,
  IsReading, IsUncommitted, IsLeft,
}
use sql_gateway_poc.Postgres.Executor.Calls.Blocks.{Leaves, Ensures-using}
use sql_gateway_poc.Postgres.Executor.Calls.Transactions.{timeout, queried, BodyEnds, body_ends}

-- Leaving a block failed.
abbrev pub IsBroken : List Call → Type 0
IsBroken [] = ⊥
IsBroken (left_cursor _ (raised _) ∷ log) = Unit
IsBroken (left_connection _ (raised _) ∷ log) = Unit
IsBroken (_ ∷ log) = IsBroken log

-- An exception that is no psycopg.Error.
abbrev pub IsNoDbError : Exception → Type 0
IsNoDbError (psycopg_error e) = ⊥
IsNoDbError assertion_error = Unit
IsNoDbError (foreign name) = Unit

module _ {S : Type 0} (psycopg : Psycopg S) (settings : ExecutorSettings) (query : Text) where
  abbrev CursorEnds : Outcome QueryOutcomeDto → List Call → Type 0
  CursorEnds (returned r) log =
      (r.succeeded ≡ true)
      × ((reads : List Call) × IsReading (settings.max_results + 1) reads
          × (log
              ≡ left_cursor false (returned tt)
                ∷ committed (returned tt)
                ∷ (reads ++ queried psycopg settings query)))
  CursorEnds (raised e) log = IsUncommitted log ⊎ IsBroken log

  cursor_leaves :
      Leaves {S = S} left_cursor psycopg.leave_cursor (BodyEnds psycopg settings query) CursorEnds
  cursor_leaves (returned r) (returned tt) log (good, (reads, batch, p)) =
      (good, (reads, batch, ap (λ l. left_cursor false (returned tt) ∷ l) p))
  cursor_leaves (returned r) (raised e) log h = inr tt
  cursor_leaves (raised e) (returned u) log h = inl h
  cursor_leaves (raised e) (raised e') log h = inr tt

  -- The query was run under the time limit, its rows asked for if it has any, and committed, in
  -- this order, and no other call was made.
  abbrev pub IsCommitted : List Call → Type 0
  IsCommitted log =
      (reads : List Call) × IsReading (settings.max_results + 1) reads
      × (log ≡ committed_log settings.database_url (timeout psycopg settings query) query reads)

  abbrev pub HasFailed : List Call → Type 0
  HasFailed log = (IsUncommitted log ⊎ IsBroken log) × IsLeft log

  abbrev RunEnds : Outcome QueryOutcomeDto → List Call → Type 0
  RunEnds (returned r) log = (r.succeeded ≡ true) × IsCommitted log
  RunEnds (raised e) log = HasFailed log

  connection_leaves : Leaves {S = S} left_connection psycopg.leave_connection CursorEnds RunEnds
  connection_leaves (returned r) (returned tt) log (good, (reads, batch, p)) =
      (good, (reads, batch, ap (λ l. left_connection false (returned tt) ∷ l) p))
  connection_leaves (returned r) (raised e) log h = (inr tt, tt)
  connection_leaves (raised e) (returned u) log h = (h, tt)
  connection_leaves (raised e) (raised e') log h = (inr tt, tt)

  abbrev pub IsSettled : Outcome QueryOutcomeDto → S × List Call → Type 0
  IsSettled (returned r) s =
      ((r.succeeded ≡ true) × IsCommitted s.1) ⊎ ((r.succeeded ≡ false) × HasFailed s.1)
  IsSettled (raised e) s = IsNoDbError e × HasFailed s.1

  recovered :
      (o : Outcome QueryOutcomeDto) (s : S × List Call)
      → RunEnds o s.1
      → IsSettled (recover build_error_outcome o) s
  unfolding build_error_outcome
  recovered (returned r) s h = inl h
  recovered (raised (psycopg_error e)) s h = inr (refl, h)
  recovered (raised assertion_error) s h = (tt, h)
  recovered (raised (foreign name)) s h = (tt, h)

  -- Whatever psycopg does: an outcome that succeeded comes from exactly this sequence of calls:
  -- connect, open a cursor, set the time limit for the transaction, run the query once, ask for
  -- at most `max_results` + 1 rows if it has columns, commit, leave the cursor and the connection
  -- without an exception. In all other cases no commit has returned, unless leaving a block
  -- failed, and leaving the connection was the last call, unless connecting failed. No
  -- psycopg.Error gets out: it becomes an outcome that failed.
  pub execute_postgres_settles :
      Ensures (LogIs []) (execute_postgres (log_psycopg psycopg) settings (str query)) IsSettled
  unfolding execute_postgres except_psycopg
  execute_postgres_settles =
      let in_cursor =
        Ensures-using left_cursor psycopg.leave_cursor (BodyEnds psycopg settings query) CursorEnds
          (connected settings.database_url (returned tt) ∷ []) opened psycopg.open_cursor
          (run_in_transaction (log_psycopg psycopg) settings query)
          (body_ends psycopg settings query) (λ e. inl tt) cursor_leaves in
      let in_connection =
        Ensures-using left_connection psycopg.leave_connection CursorEnds RunEnds []
          (connected settings.database_url) (psycopg.connect settings.database_url none) _ in_cursor
          (λ e. (inl tt, tt)) connection_leaves in
      record { at = λ s p. recovered _ _ (in_connection.at s p) }
