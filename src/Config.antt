-- ===== src/Config.antt =====
-- internal/config: the environment and the configuration file.
pub mod Env
pub mod Load
pub mod Hosts
pub mod Valid
