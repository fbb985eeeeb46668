-- ===== src/Auth.antt =====
-- Logging in through Coder, and the signed session cookie: admin/internal/auth/auth.go.
pub mod Config
pub mod Cookies
pub mod Session
pub mod Authentic
pub mod Gate
pub mod Login
pub mod Returns
mod Examples
