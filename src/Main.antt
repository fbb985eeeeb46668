-- ===== src/Main.antt =====
-- The server's wiring of admin/cmd/sandcastle-admin/main.go.
pub mod Reconcile
pub mod Denials
pub mod Enforced
pub mod Resolved
pub mod Loop
mod Examples
