-- ===== src/Samples.antt =====
-- Concrete inputs, and the theorems at work on them: a parser that knows three statements, ports
-- that answer in a fixed way, and the examples.
pub mod Trees
pub mod Ports
mod Requests
mod Database
mod Sinks
mod Startups
mod Clients
mod Live
pub mod Services
mod Queries
mod Pages
