-- ===== src/Xds.antt =====
-- The Envoy configuration: admin/internal/xds/build.go and admin/internal/xds/server.go.
pub mod Json
pub mod Listeners
pub mod Routes
pub mod Build
pub mod Admits
pub mod Access
pub mod Enforced
pub mod Stable
pub mod Order
pub mod Server
mod Examples
