-- ===== src/Tests.antt =====
-- Concrete pools, configurations and sessions, and the theorems at them.
mod Balancing
mod Access
mod Checks
mod Sessions
mod Queue
mod Wire
mod Http
mod Tls
mod Editing
mod Trust
mod Firewall
mod Settings
mod Spam
