-- ===== src/Admin.antt =====
-- internal/manager/admin: the administration of the manager.
mod Tests
mod SettingsTests
pub mod Auth
pub mod Workers
pub mod Oidc
pub mod Versions
pub mod Backends
pub mod Roles
