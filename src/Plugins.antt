-- ===== src/Plugins.antt =====
-- packages/sdk/src/plugins/registry.ts: the version ranges of capability contracts, and the choice of
-- a provider.
pub mod Version
pub mod Registry
pub mod Runtime
mod Tests
