-- ===== src/Web/Admins.antt =====
-- The other administrators' handlers of admin/internal/web/handlers.go.
use sandcastle.Prelude.{none, some, List, [], ◌∷◌, Str, codes, str_eq, map, keep}
use sandcastle.Prelude.Assoc.{Map, put}
use sandcastle.Prelude.Int.{pos}
use sandcastle.Policy.Rules.{Workspace, Input, zone_of}
use sandcastle.Go.Strings.{trim_space}
use sandcastle.Http.{HttpRequest, Response, page}
use sandcastle.Auth.Config.{User}
use sandcastle.Watch.{running}
use sandcastle.Store.Db.{Env, RuleRow, Db, pending, ok, err}
use sandcastle.Store.Zones.{
  ZoneView, zone_views, create_zone, clone_zone, rename_zone, delete_zone, set_default_zone,
}
use sandcastle.Store.Zones
use sandcastle.Store.Rules.{opt_text, grants, add_zone_rule, delete_rule, grant_rule}
use sandcastle.Store.Requests.{list_requests, list_denials}
use sandcastle.Store.Load.{policy_input, audit_list}
use sandcastle.Web.Pages.{Page, WsRow, queue_page, zones_page, workspaces_page, audit_page}
use sandcastle.Web.Forms.{Answer, ttl_for, back, finish}
use sandcastle.Web.Members.{Site, rule_from, names}

unfoldable pub queue : Site → User → Response Page
queue s u = page (
    queue_page u (list_requests (some pending) none (s.reads 0)) (list_denials none (s.reads 1))
      (names s))

unfoldable pub zones : Site → User → Response Page
zones s u = page (zones_page u (zone_views (s.reads 0) (s.reads 1)) (names s))

-- createZone, cloneZone, renameZone, deleteZone and defaultZone, for the {id} of the path.
unfoldable pub create : Site → HttpRequest → User → Db → Answer
create s r u db =
    finish (codes "/zones") (create_zone s.env u.name (trim_space (r.form (codes "name"))) db)

unfoldable pub clone : Site → HttpRequest → User → Str → Db → Answer
clone s r u id db =
    finish (codes "/zones") (clone_zone s.env u.name id (trim_space (r.form (codes "name"))) db)

unfoldable pub rename : Site → HttpRequest → User → Str → Db → Answer
rename s r u id db =
    finish (codes "/zones") (rename_zone s.env u.name id (trim_space (r.form (codes "name"))) db)

unfoldable pub delete : Site → User → Str → Db → Answer
delete s u id db = finish (codes "/zones") (delete_zone s.env u.name id db)

unfoldable pub make_default : Site → User → Str → Db → Answer
make_default s u id db = finish (codes "/zones") (set_default_zone s.env u.name id db)

unfoldable pub add_to_zone : Site → HttpRequest → User → Str → Db → Answer
add_to_zone s r u id db = finish (codes "/zones") (add_zone_rule s.env u.name id (rule_from s r) db)

unfoldable pub remove_rule : Site → HttpRequest → User → Str → Db → Answer
remove_rule s r u id db = finish (back r.form) (delete_rule s.env u.name id db)

-- The grants of a workspace, and its row.
unfoldable pub ws_row : Site → Input → List RuleRow → Workspace → WsRow
ws_row s p gs ws = record {
  workspace = ws;
  zone = zone_of p ws.id;
  grants = keep (λ g. str_eq (opt_text s.env g.workspace_id) ws.id) gs;
}

unfoldable pub zone_names : Env → List ZoneView → Map Str → Map Str
zone_names env [] m = m
zone_names env (z ∷ zs) m = zone_names env zs (put (env.show_uuid z.zone.id) z.zone.name m)

-- workspaces: three queries for the policy, two for the zones, one for the grants.
unfoldable pub workspaces : Site → User → Response Page
unfolding ws_row zone_names
workspaces s u =
    let zs = zone_views (s.reads 3) (s.reads 4) in
    page (
      workspaces_page u
        (map
          (ws_row s (policy_input s.env (s.reads 0) (s.reads 1) (s.reads 2))
            (grants s.env (s.reads 5)))
          (running s.pods))
        zs (zone_names s.env zs []))

unfoldable pub assign_zone : Site → HttpRequest → User → Str → Db → Answer
assign_zone s r u id db =
    finish (codes "/workspaces") (Zones.assign s.env u.name id (r.form (codes "zone")) db)

unfoldable pub grant_to : Site → HttpRequest → User → Str → Db → Answer
grant_to s r u id db = elim (ttl_for r.form u) [
  | ok ttl ↦ finish (codes "/workspaces") (grant_rule s.env u.name id (rule_from s r) (pos ttl) db)
  | err e ↦ finish {A = Unit {0}} (codes "/workspaces") (err e, db)
]

unfoldable pub audit_rows : Site → User → Response Page
audit_rows s u = page (audit_page u (audit_list 200 (s.reads 0)))
