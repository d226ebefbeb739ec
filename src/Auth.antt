-- ===== src/Auth.antt =====
-- internal/auth/auth.go: the life of an API key and its authentication.
pub mod Token
pub mod Service
