-- ===== src/Graceful.antt =====
-- internal/deploy/graceful: circuit breaking for the backends of a deployment.
pub mod Circuit
pub mod Manager
