-- ===== src/Bridge.antt =====
-- The Codex bridge: packages/web/server/codexBridgeStore.ts, with the contracts of
-- packages/web/src/companion.
pub mod Contract
pub mod Results
pub mod State
pub mod Platform
pub mod Texts
pub mod Records
pub mod HandoffRecords
pub mod GrantRecords
pub mod Housekeeping
pub mod Mutate
pub mod Moves
pub mod Handoffs
pub mod Transfers
pub mod Grants
pub mod GrantOffers
pub mod Hooks
pub mod Consumption
pub mod Enrollment
pub mod Leases
pub mod Tickets
pub mod Activation
pub mod HandoffActivation
pub mod Entry
pub mod Sessions
pub mod Deliveries
pub mod Snapshots
pub mod Actions
pub mod Settled
pub mod Retention
pub mod Rollback
pub mod Bounds
pub mod Fit
pub mod Enrolling
pub mod Admission
pub mod Distinct
pub mod Fixtures
mod Tests
