-- ===== src/HttpProxy.antt =====
-- The HTTP proxy of internal/httpproxy/server.go.
pub mod Server
pub mod Lifecycle
pub mod Endings
pub mod CutOff
pub mod Late
pub mod Waits
pub mod Headers
pub mod Handler
pub mod Admission
pub mod Gate
pub mod Sessions
pub mod Forwarding
