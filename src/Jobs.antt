-- ===== src/Jobs.antt =====
-- crates/of-core/src/jobs.rs: the queue. An operation takes the transaction and the store and gives
-- its result with the new store, or an error; on an error the transaction is rolled back, so the
-- store stays as it was.
pub mod Row
pub mod Counters
pub mod Claim
pub mod Cancel
pub mod Query
pub mod Dependencies
pub mod Create
pub mod RowInvariant
pub mod Totals
pub mod Invariant
pub mod Effects
pub mod Preservation
pub mod ClaimInvariant
pub mod CreateRule
pub mod CreateInvariant
pub mod History
pub mod Isolation
pub mod StatsScan
pub mod Tenancy
pub mod Graph
pub mod Batch
pub mod Fencing
pub mod Exclusion
pub mod Handshake
pub mod Readiness
pub mod Visible
pub mod Created
