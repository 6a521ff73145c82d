-- ===== src/Sessions.antt =====
-- What stands before the endpoints beside the MCP root, and the sessions of server.go.
pub mod Janitor
pub mod Endpoints
mod Tests
