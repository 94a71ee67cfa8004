-- ===== src/Client/Gpu.antt =====
-- internal/client/gpu/monitor.go: the GPU monitor of a worker.
pub mod Window
pub mod Recent
pub mod Monitor
pub mod Changes
