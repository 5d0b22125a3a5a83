-- ===== src/Config.antt =====
-- internal/config: the settings, and the sing-box configuration made of a node and the settings.
pub mod Settings
pub mod Types
pub mod Encode
pub mod Render
