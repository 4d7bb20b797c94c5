-- ===== src/Postgres/Executor.antt =====
-- The Postgres executor: each query in its own transaction, with a time limit.
-- infrastructure/persistence/postgres/query_executor_adapter.py
pub mod Cells
pub mod Reads
pub mod Calls
pub mod Messages
pub mod Total
use sql_gateway_poc.Base.{
  ℕ, zero, suc, ◌+◌, Bool, true, false, Option, none, some, List, [], ◌∷◌, ◌++◌, map, String, ltb,
  length, take,
}
use sql_gateway_poc.Base.Text.{Text, codes, is_empty, first_line}
use sql_gateway_poc.Base.Decimal.{decimal}
use sql_gateway_poc.Base.Exec.{
  DbError, Exec, Outcome, returned, raised, Exception, assertion_error, psycopg_error, foreign,
  pure, throw, ◌>>=◌, ◌>>◌, using,
}
use sql_gateway_poc.Core.Values.{ℤ, pos, Cell, int, QueryPayload, str, dict, list}
use sql_gateway_poc.Core.Dtos.{QueryOutcomeDto, outcome}
use sql_gateway_poc.Core.Ports.{QueryExecutor}
use sql_gateway_poc.Sql.Validator.{payload_type_name}
use sql_gateway_poc.Postgres.Executor.Cells.{coerce_cell_to_json_safe}
use sql_gateway_poc.Postgres.Executor.Messages.{sanitize_error_message}

-- What the adapter calls of psycopg, on a state that the server and the open connection share.
-- The exits of the with blocks are told whether an exception passes through them.
pub record Psycopg (S : Type 0) : Type 0 where
  pub connect : Text → Option ℕ → Exec S Unit
  pub leave_connection : Bool → Exec S Unit
  pub open_cursor : Exec S Unit
  pub leave_cursor : Bool → Exec S Unit
  -- cursor.execute(query, parameters)
  pub cursor_execute : Text → List Text → Exec S Unit
  -- the names in cursor.description, and cursor.rowcount
  pub description : S → Option (List Text)
  pub rowcount : S → ℤ
  pub fetchmany : ℕ → Exec S (List (List Cell))
  pub fetchone : Exec S (Option (List Cell))
  pub commit : Exec S Unit

-- The settings that the executor keeps.
pub record ExecutorSettings : Type 0 where
  pub database_url : Text
  pub query_timeout_ms : ℕ
  pub max_results : ℕ

-- _PING_CONNECT_TIMEOUT_SECONDS
abbrev pub ping_connect_timeout_seconds : ℕ
ping_connect_timeout_seconds = 2

abbrev pub set_timeout_statement : Text
unfolding codes
set_timeout_statement = codes "SELECT set_config('statement_timeout', %s, true)"

abbrev pub ping_statement : Text
unfolding codes
ping_statement = codes "SELECT 1"

-- The first text that is there and not empty.
abbrev or_text : Option Text → Text → Text
or_text none text = text
or_text (some []) text = text
or_text (some (c ∷ s)) text = c ∷ s

-- _build_error_outcome
unfoldable pub build_error_outcome : DbError → QueryOutcomeDto
build_error_outcome e = record (outcome false) {
  error_message = some (sanitize_error_message (or_text e.message_primary (first_line e.text)));
  error_code = e.sqlstate;
}

-- The outcome of a read with these names and fetched rows.
unfoldable pub read_outcome : ℕ → List Text → List (List Cell) → QueryOutcomeDto
read_outcome max_results column_names fetched_rows = record (outcome true) {
  columns = column_names;
  rows = map (λ row. map coerce_cell_to_json_safe row) (take max_results fetched_rows);
  rows_were_truncated = ltb max_results (length fetched_rows);
}

module _ {A : Type 0} where
  -- except psycopg.Error as exception: return handler(exception)
  abbrev pub recover : (DbError → A) → Outcome A → Outcome A
  recover handler (raised (psycopg_error e)) = returned (handler e)
  recover handler (raised assertion_error) = raised assertion_error
  recover handler (raised (foreign name)) = raised (foreign name)
  recover handler (returned a) = returned a

module _ {S A : Type 0} where
  unfoldable pub except_psycopg : (DbError → A) → Exec S A → Exec S A
  except_psycopg handler m s = let (o, s') = m s in (recover handler o, s')

module _ {S : Type 0} (psycopg : Psycopg S) (settings : ExecutorSettings) where
  open psycopg use {
    connect, leave_connection, open_cursor, leave_cursor, cursor_execute, description, rowcount,
    fetchmany, fetchone, commit,
  }

  -- An attribute of the cursor, read now.
  abbrev reading : {A : Type 0} → (S → A) → Exec S A
  reading attribute s = (returned (attribute s), s)

  -- The names of the columns; iterating over None is a TypeError.
  abbrev names_of : Option (List Text) → Exec S (List Text)
  names_of none = throw (foreign "TypeError")
  names_of (some column_names) = pure column_names

  abbrev assert_some : Option (List Text) → Exec S Unit
  assert_some none = throw assertion_error
  assert_some (some _) = pure tt

  unfoldable pub build_read_outcome : Exec S QueryOutcomeDto
  build_read_outcome = do
    asserted ← reading description
    assert_some asserted
    fetched_rows ← fetchmany (settings.max_results + 1)
    described ← reading description
    column_names ← names_of described
    pure (read_outcome settings.max_results column_names fetched_rows)

  abbrev write_outcome : ℤ → QueryOutcomeDto
  write_outcome n = record (outcome true) { rows_affected = some n }

  abbrev outcome_of : Option (List Text) → Exec S QueryOutcomeDto
  outcome_of none = reading (λ s. write_outcome (rowcount s))
  outcome_of (some _) = build_read_outcome

  -- The body of the with blocks of execute.
  unfoldable pub run_in_transaction : Text → Exec S QueryOutcomeDto
  run_in_transaction query_text = do
    cursor_execute set_timeout_statement
        ((decimal settings.query_timeout_ms ++ b'm' ∷ b's' ∷ []) ∷ [])
    cursor_execute query_text []
    described ← reading description
    query_outcome ← outcome_of described
    commit
    pure query_outcome

  type_mismatch : String → QueryOutcomeDto
  type_mismatch name = record (outcome false) {
    error_message = some (codes "Postgres executor expects a string, got " ++ codes name);
  }

  -- execute
  unfoldable pub execute_postgres : QueryPayload → Exec S QueryOutcomeDto
  unfolding type_mismatch
  execute_postgres (str query_text) = except_psycopg build_error_outcome (
      using (connect settings.database_url none) leave_connection
        (using open_cursor leave_cursor (run_in_transaction query_text)))
  execute_postgres (dict d) = pure (type_mismatch (payload_type_name (dict d)))
  execute_postgres (list l) = pure (type_mismatch (payload_type_name (list l)))

  -- `cursor.fetchone() == (1,)`
  abbrev pub is_one : Option (List Cell) → Bool
  is_one (some (int (pos (suc zero)) ∷ [])) = true
  is_one _ = false

  unfoldable pub ping_body : Exec S Bool
  ping_body = do cursor_execute ping_statement []; row ← fetchone; pure (is_one row)

  unfoldable pub ping_postgres : Exec S Bool
  ping_postgres =
      except_psycopg (λ _. false)
        (using (connect settings.database_url (some ping_connect_timeout_seconds)) leave_connection
          (using open_cursor leave_cursor ping_body))

  -- PostgresQueryExecutorAdapter
  abbrev pub postgres_executor : QueryExecutor S
  postgres_executor = record { execute = execute_postgres; ping = ping_postgres }
