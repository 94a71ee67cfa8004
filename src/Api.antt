-- ===== src/Api.antt =====
-- internal/manager/api: the HTTP API of the manager.
mod Tests
pub mod Http
pub mod Units
pub mod Completions
pub mod Batch
pub mod Consents
pub mod Goodbye
pub mod Roles
