-- ===== src/Observability.antt =====
-- The sinks of the observability entries: infrastructure/observability/*.py, and the stream that
-- serves them.
pub mod Subscriber
pub mod InMemory
pub mod Sinks
pub mod Stream
pub mod Page
