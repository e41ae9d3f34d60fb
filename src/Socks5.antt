-- ===== src/Socks5.antt =====
-- internal/socks5/server.go: the messages on the wire, the handler of a connection, and the proofs
-- about each.
pub mod Wire
pub mod Dialogue
pub mod Quiet
pub mod Grants
pub mod Handler
pub mod Sessions
pub mod Accept
pub mod Shutdown
pub mod Admission
pub mod Gate
pub mod Charges
