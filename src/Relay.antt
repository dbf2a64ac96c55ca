-- ===== src/Relay.antt =====
-- serverwall-relay: the receiver of outbound mail, its limits and the queue.
pub mod Spool
pub mod Scheduler
pub mod Bounce
pub mod Delivery
pub mod Policy
pub mod Receiver
pub mod TrustedHosts
