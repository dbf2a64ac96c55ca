-- ===== src/Proxy.antt =====
-- The crate serverwall-proxy.
pub mod Pipeline
pub mod Smtp
pub mod Http
