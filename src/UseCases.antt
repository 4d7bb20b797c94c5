-- ===== src/UseCases.antt =====
-- The use cases: application/use_cases/*.py.
pub mod ExecuteQuery
