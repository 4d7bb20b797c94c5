-- ===== src/Sql.antt =====
-- The part that all SQL adapters share: infrastructure/persistence/sql/*.py, with the rules of
-- infrastructure/persistence/postgres/rules/*.py.
pub mod Ast
pub mod Registry
pub mod Codes
pub mod Rules
pub mod Validator
pub mod Sensitive
pub mod Scrubber
