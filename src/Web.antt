-- ===== src/Web.antt =====
-- The administrators' pages of admin/internal/web.
pub mod Pages
pub mod Forms
pub mod Members
pub mod Admins
pub mod Filed
pub mod Own
pub mod Routes
pub mod Guarded
pub mod Signals
pub mod Shown
mod Examples
