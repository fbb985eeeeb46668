-- ===== src/Policy.antt =====
-- admin/internal/policy: who may reach what. Pure functions of the zones, grants and pods.
pub mod Name
pub mod Rules
pub mod Granted
pub mod Valid
pub mod Hosts
mod Examples
