-- ===== src/Router.antt =====
-- packages/mcp-server/src/router: the gateway between the MCP endpoint and the kits.
pub mod Authz
pub mod Dispatcher
pub mod ToolCall
pub mod Oauth
pub mod Endpoints
pub mod Trace
mod Tests
