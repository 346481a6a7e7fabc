-- ===== src/Manager.antt =====
-- The runtime manager: src/manager.
pub mod Trust
pub mod Value
pub mod Secrets
pub mod States
pub mod Codes
pub mod Receipts
pub mod Failures
pub mod Requests
pub mod Store
pub mod Chain
pub mod Journals
pub mod Replays
pub mod Runs
pub mod Mutate
pub mod Lock
pub mod Query
pub mod Reconcile
pub mod Calls
pub mod Protocol
pub mod Results
pub mod Soundness
pub mod Tests
pub mod Examples
pub mod Witnesses
