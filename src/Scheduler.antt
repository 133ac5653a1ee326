-- ===== src/Scheduler.antt =====
-- kits/debrief/src/scheduler/index.ts: the durable store of scheduled calls, and its poller.
pub mod Types
pub mod Table
pub mod Store
pub mod Operations
pub mod Claims
pub mod Once
pub mod Leases
pub mod Tenants
pub mod Poller
mod Tests
