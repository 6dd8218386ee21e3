-- ===== src/Auth.antt =====
-- server/auth.go: sessions, their CSRF tokens, and the limit on attempts to sign in.
pub mod Session
pub mod Limiter
pub mod Signed
pub mod Waits
pub mod Backoff
pub mod Login
