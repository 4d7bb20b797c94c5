-- ===== src/Lib.antt =====
-- The SQL gateway: an HTTP service between an agent and a database. It validates each query on its
-- syntax tree, runs what it allows in a transaction of its own, and records every decision with the
-- literals of the query replaced.
--
-- The parts, and the files that model them (paths from the root of the repository):
--   Core            src/core: payloads, decisions, the objects that the ports exchange, the entry and
--                   its JSON form, and the ports as actions on a state that all adapters share.
--   Sql             src/infrastructure/persistence/sql and the rules of .../postgres/rules: the rule
--                   registry (Registry), the six rules (Rules), SqlQueryValidator (Validator), the
--                   pattern for sensitive names (Sensitive) and SqlQueryScrubberAdapter (Scrubber).
--   Postgres        src/infrastructure/persistence/postgres: the dialect with its six rules
--                   (Validator) and PostgresQueryExecutorAdapter (Executor).
--   UseCases        src/application/use_cases/execute_query_use_case.py.
--   Http            src/application/controllers/http/{gateway,probes}, and the readiness use case.
--   Observability   src/infrastructure/observability, and the event stream of
--                   src/application/controllers/http/observability.
--   Config          src/infrastructure/config/settings.py.
--   App             what the container puts together for Postgres: the guard, and the service that
--                   answers POST /query.
--   Startup         src/main.py: settings or report (Report), imports (Imports), the discovery of
--                   controllers (Controllers) and the application (Build).
--   Base            texts, lists, dictionaries, decimal numbers, and actions that may raise.
--   Samples         concrete inputs, and each theorem at work on one of them.
-- A request goes from Http.Gateway to UseCases.ExecuteQuery, which calls the ports of Core.Ports:
-- scrub (Sql.Scrubber), validate (Postgres.Validator, over Sql), execute (Postgres.Executor) and
-- record_entry (Observability.Sinks, which forwards to Observability.InMemory and the two writers of
-- lines).
--
-- How the code corresponds: a method is a function of its name without the leading underscore; a
-- method that changes state or may raise is an action of Base.Exec, from a state to an outcome and a
-- state; a with block is `using`, and `except psycopg.Error` is `except_psycopg`; a loop is recursion
-- on the list that it goes through; the loop that removes cards of the page runs as often as there are
-- cards too many, which is enough (Observability.Page.Cards). A text is the list of its code points.
--
-- Other code is a parameter: sqlglot is the record Sql.Ast.Sqlglot, which says nothing of how trees
-- are made: a parse gives statements, an SqlglotError or another exception, and looking at a tree
-- returns; psycopg is Postgres.Executor.Psycopg, whose calls may do and raise anything; streams,
-- files and json.dumps are parameters of Observability.Sinks and Observability.Stream; the clocks
-- are Core.Ports.Clocks. importlib and the file system are Startup.Imports.Python, wireup and FastAPI
-- are Startup.Build.Frameworks; of the browser, JSON, EventSource and toFixed are parameters of
-- Observability.Page.
-- JSONResponse is taken to render its body as Starlette does, by json.dumps with allow_nan=False and
-- then by encoding the text; both raise for what they cannot hold (Http.Response).
-- A set of ids of nodes is a list that is asked for membership only.
--
-- Numbers: durations count hundredths of a millisecond and clock readings nanoseconds, where the
-- program has floats; a float cell is the bits of its double. `lower` is exact on texts whose lower
-- case is ASCII, which is all that the comparison with blocked names can see.
--
-- Threads: a locked block is one step, and so is a callback that the event loop runs; what the
-- threads do together is a sequence of such steps. The recorder delivers an entry outside its lock, so
-- each delivery is a step of its own (deliver_in_memory), and those of two threads come in any order.
--
-- Texts of the script of the page are lists of UTF-16 code units; numbers on it are below 10^21.
--
-- Not modelled: the matching of paths by FastAPI and the type checks of pydantic; what wireup injects,
-- which is a parameter of Startup.Build; the set-up of logging; the styles and the static markup of
-- the live page and the alignment of its rows; queries of a card that are no text; init.sql.
pub mod Base
pub mod Core
pub mod Sql
pub mod Postgres
pub mod UseCases
pub mod Http
pub mod Observability
pub mod Config
pub mod Samples
pub mod App
pub mod Startup
