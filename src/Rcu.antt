-- ===== src/Rcu.antt =====
-- fastsmr: deferred work that passes a read-copy-update grace period, then a scan of the hazard
-- pointers, then a second grace period. The queues are lists of pointers, the oldest first: what
-- the linked queues of `Fifo` hold.
pub mod State
pub mod Enqueue
pub mod Conserve
pub mod Scan
pub mod Linked
pub mod Shutdown
pub mod Clock
pub mod Startup
pub mod Hazard
pub mod SmrScan
pub mod Poll
pub mod Grace
pub mod Tallies
pub mod Waiting
mod Examples
