-- ===== src/Deploy.antt =====
-- internal/deploy: rolling back an application, by hand and after a failed deployment.
pub mod Rollback
pub mod AutoRollback
