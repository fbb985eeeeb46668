-- ===== src/Cilium.antt =====
-- The DNS policies of admin/internal/cilium/cilium.go.
pub mod Render
pub mod Named
pub mod Selected
pub mod Apply
pub mod Pruned
pub mod Converged
pub mod Rendered
pub mod Enforced
pub mod Examples
