-- ===== src/HttpApi.antt =====
-- internal/httpapi: the parts of the HTTP interface that have logic of their own.
pub mod Page
pub mod Idempotency
pub mod RateLimit
