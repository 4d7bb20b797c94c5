-- ===== src/Core.antt =====
-- The domain: core/model/*.py and core/ports/**/*.py.
pub mod Values
pub mod Dtos
pub mod Entry
pub mod Ports
