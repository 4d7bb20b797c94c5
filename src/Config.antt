-- ===== src/Config.antt =====
-- The settings: infrastructure/config/settings.py
pub mod Settings
