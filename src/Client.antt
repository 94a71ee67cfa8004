-- ===== src/Client.antt =====
-- internal/client: the program of a worker.
mod Tests
mod WorkerTests
mod UpdateTests
pub mod Gpu
pub mod State
pub mod Status
pub mod Connection
pub mod Persisted
pub mod Backend
pub mod Worker
pub mod Updates
pub mod Consent
pub mod Updater
pub mod Reporter
