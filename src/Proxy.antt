-- ===== src/Proxy.antt =====
-- internal/proxy: the SNI proxy, its capacity, the statistics and the internal API.
pub mod Relay
pub mod Routes
pub mod Accept
pub mod Capacity
pub mod Lifecycle
pub mod Serving
pub mod Orderly
pub mod Drained
pub mod Draining
pub mod Endings
pub mod Certificates
pub mod Stats
pub mod Window
pub mod Report
pub mod Writer
pub mod Heads
