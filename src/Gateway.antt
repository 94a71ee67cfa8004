-- ===== src/Gateway.antt =====
-- internal/manager/gateway: the WebSocket gateway to the workers (websocket.go, handshake.go).
pub mod State
pub mod Dispatch
pub mod Handshake
pub mod Messages
pub mod Selection
pub mod Authentic
pub mod Reports
pub mod Keys
pub mod Reconnect
pub mod Tests
mod ConnectionTests
