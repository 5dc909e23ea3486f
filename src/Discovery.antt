-- ===== src/Discovery.antt =====
-- internal/discovery: which backends are fit to serve.
pub mod Health
