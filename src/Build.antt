-- ===== src/Build.antt =====
-- internal/build: the queue that limits the builds of every tenant.
pub mod TenantQueue
