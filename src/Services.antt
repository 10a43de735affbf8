-- ===== src/Services.antt =====
-- chatterd/services/: the manager that runs the services of the daemon.
pub mod Manager
