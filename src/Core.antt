-- ===== src/Core.antt =====
-- The crate serverwall-core.
pub mod Types
pub mod Balancer
pub mod Acl
pub mod Smtp
pub mod Config
pub mod Health
pub mod Ja3
pub mod Imap
