-- ===== src/Authz.antt =====
-- packages/authz: grants, one-hop memberships, and the decision cache over them.
pub mod Types
pub mod Db
pub mod Lifecycle
pub mod Engine
pub mod Keys
pub mod Cache
pub mod Middleware
mod Tests
