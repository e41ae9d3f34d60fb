-- ===== src/Examples.antt =====
-- Concrete inputs: the data, and each theorem applied to them.
pub mod Data
pub mod Access
pub mod Counters
pub mod Names
pub mod Servers
pub mod Throttled
pub mod Console
pub mod Start
pub mod Lifecycle
