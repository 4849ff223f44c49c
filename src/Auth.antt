-- ===== src/Auth.antt =====
-- internal/auth: the token cache, the rate limiter and the session tokens.
pub mod Cache
pub mod Limiter
pub mod Paseto
pub mod Samples
mod Tests
