-- ===== src/Antispam.antt =====
-- The crate serverwall-antispam.
pub mod Score
pub mod Lists
pub mod Pipeline
pub mod Headers
pub mod RateLimit
pub mod Behavior
pub mod RateDb
