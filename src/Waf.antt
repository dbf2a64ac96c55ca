-- ===== src/Waf.antt =====
-- The crate serverwall-waf: the web application firewall.
pub mod Request
pub mod Rules
pub mod Matcher
pub mod Anomaly
pub mod Engine
pub mod Parser
pub mod RateLimit
