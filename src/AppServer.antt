-- ===== src/AppServer.antt =====
-- The client of the Codex App Server: packages/companion/app-server-client/src.
pub mod Errors
pub mod EventHub
pub mod Types
pub mod Wire
pub mod Client
mod Tests
