-- ===== src/Api.antt =====
-- internal/api/middleware: who a request comes from, and how many of its requests go through.
pub mod ClientIp
pub mod GlobalLimiter
pub mod KvLimiter
pub mod Idempotency
