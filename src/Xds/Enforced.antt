-- ===== src/Xds/Enforced.antt =====
-- The policy that the routes of admin/internal/xds/build.go put into force.
use sandcastle.Xds.Json.{Json}
