-- ===== src/Journey.antt =====
-- The journey of the companion: packages/web/src/companion/journeyRecovery.ts.
pub mod Recovery
pub mod Decisions
pub mod Waiting
pub mod Quiet
mod Tests
