-- ===== src/Store.antt =====
-- internal/manager/store: the rows (models.go), the store over its tables and the operations on them.
pub mod Models
pub mod State
pub mod Workers
pub mod Versions
pub mod Sync
pub mod Consents
pub mod Roles
pub mod Units
pub mod Batches
pub mod Latency
pub mod Status
pub mod Verdict
pub mod Untouched
pub mod Withdrawal
pub mod Upsert
pub mod Pending
pub mod Tests
mod RowTests
pub mod Settings
