-- ===== src/Startup.antt =====
-- The composition root: from the environment and the packages to the application.
-- main.py
pub mod Steps
pub mod Order
pub mod Report
pub mod Imports
pub mod Controllers
pub mod Build
