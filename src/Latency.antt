-- ===== src/Latency.antt =====
-- internal/manager/latency/monitor.go: the latency matrix and the hourly aggregation.
pub mod Buckets
pub mod Monitor
pub mod Percentiles
pub mod Partition
pub mod Bootstrap
mod Tests
