-- ===== src/AppServer/Client.antt =====
-- client.ts: `DefaultAppServerClient`. A method that awaits is split at each `await`; the parts are
-- the actions of `Actions.antt`, and other messages and calls may come between them.
pub mod State
pub mod Turns
pub mod Notifications
pub mod Messages
pub mod Calls
pub mod TurnCalls
pub mod Actions
pub mod Rules
pub mod History
pub mod Threads
pub mod Requests
pub mod Failures
pub mod Responses
pub mod Settlement
