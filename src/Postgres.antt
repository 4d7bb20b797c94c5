-- ===== src/Postgres.antt =====
-- The Postgres adapter: infrastructure/persistence/postgres/*.py.
pub mod Validator
pub mod Executor
