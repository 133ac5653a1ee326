-- ===== src/Audit.antt =====
-- packages/sdk/src/audit.ts: the hash-chained audit store.
pub mod Types
pub mod Json
pub mod Sensitive
pub mod Store
pub mod Dispatch
pub mod Chain
pub mod Queries
mod Tests
