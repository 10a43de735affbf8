-- ===== src/Config.antt =====
-- config/: the configuration of the daemon, and the order in which services start.
pub mod Ospf
pub mod Service
pub mod Graph
pub mod Bootstraps
