-- ===== src/Store.antt =====
-- admin/internal/store: the only place where policy state lives, as transactions on a database.
pub mod Db
pub mod Tx
pub mod Sql
pub mod Keeps
pub mod Zones
pub mod Rules
pub mod Requests
pub mod Load
pub mod Ops
pub mod Migrate
pub mod Audited
pub mod Expiry
pub mod Invariant
pub mod Loaded
pub mod Homes
pub mod InForce
pub mod Keyed
pub mod Inversions
pub mod Decisions
pub mod Filing
mod Examples
