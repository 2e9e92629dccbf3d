-- ===== src/Collaboration.antt =====
-- packages/collaboration: the reference collaboration service.
pub mod Types
pub mod EventLog
pub mod Pointer
pub mod Conflict
pub mod Requests
pub mod Support
pub mod Governance
pub mod Presence
pub mod State
pub mod Patch
pub mod Proposals
pub mod Moves
pub mod Reviews
pub mod Revisions
pub mod Service
pub mod Fixtures
