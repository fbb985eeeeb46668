-- ===== src/Web/Pages.antt =====
-- What the handlers of admin/internal/web/handlers.go hand to the templates.
use sandcastle.Prelude.{List, Str}
use sandcastle.Prelude.Assoc.{Map}
use sandcastle.Prelude.Int.{ℤ}
use sandcastle.Policy.Rules.{Workspace}
use sandcastle.Store.Db.{RuleRow, Request, Denial, AuditRow}
use sandcastle.Store.Zones.{ZoneView}
use sandcastle.Auth.Config.{User}

-- wsRow
pub record WsRow : Type 0 where
  pub workspace : Workspace
  pub zone : Str
  pub grants : List RuleRow

pub data Page : Type 0 where
  request_page : User → Workspace → (host : Str) → (port : ℤ) → Page
  mine_page :
      User → List Workspace → List Denial → List Request → (names : Map Str) → (filed : Str) → Page
  queue_page : User → List Request → List Denial → (names : Map Str) → Page
  zones_page : User → List ZoneView → (names : Map Str) → Page
  workspaces_page : User → List WsRow → List ZoneView → (zone_names : Map Str) → Page
  audit_page : User → List AuditRow → Page
