-- ===== src/Parser.antt =====
-- internal/parser: node URIs to sing-box outbounds.
pub mod Types
pub mod Common
pub mod Hysteria
pub mod Vless
pub mod Socks
pub mod Dispatch
pub mod Schemes
pub mod Stages
pub mod Shape
pub mod Redaction
pub mod Logins
