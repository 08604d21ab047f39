-- ===== src/Bridge/Distinct.antt =====
-- The ids of sessions, through every action of the store.
pub mod Ids
pub mod Untouched
pub mod Changed
pub mod Added
pub mod Claims
pub mod Kept
pub mod Steps
