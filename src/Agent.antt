-- ===== src/Agent.antt =====
-- packages/sdk/src/define-agent.ts: the bounded agent loop.
pub mod Types
pub mod Metadata
pub mod Config
pub mod Loop
mod Tests
