-- ===== src/Web/Shown.antt =====
-- Who is shown which page of admin/internal/web.
pub mod Plain
use sandcastle.Prelude.{◌≡◌, ◌⊎◌, true, false, ◌||◌, some, List, ℕ, str_eq, In}
use sandcastle.Prelude.Int.{pos, int_lt}
use sandcastle.Policy.Rules.{Workspace}
use sandcastle.Http.{HttpRequest, Response, page}
use sandcastle.Auth.Config.{User, Flow}
use sandcastle.Auth.Session.{user}
use sandcastle.Auth.Login.{login, logout, callback, with_flow, exchanged, signed_in, me}
use sandcastle.Store.Db.{
  Uuid, Denial, Request, Db, conflict, invalid, not_found, other, Result, ok, err,
}
use sandcastle.Web.Pages.{
  Page, request_page, mine_page, queue_page, zones_page, workspaces_page, audit_page,
}
use sandcastle.Web.Forms.{finish, status_of, ttl_for, approve, deny}
use sandcastle.Web.Members.{Site, home, filed, file_for, file, mine_of}
use sandcastle.Watch.{running}
use sandcastle.Web.Own.{IsOwn}
use sandcastle.Web.Admins.{
  create, clone, rename, delete, make_default, add_to_zone, remove_rule, assign_zone, grant_to,
}
use sandcastle.Web.Routes.{Gate, users, admins, Route}
use sandcastle.Web.Shown.Plain.{is_page, shows_all, shows_mine, shows_page}

module _ (s : Site) (db : Db) (r : HttpRequest) where
  -- A page of the user's own running workspaces: the form for one of them, or the list of them with
  -- denials and requests of them only.
  abbrev pub IsOwnPage : User → Page → Type 0
  IsOwnPage u (request_page v ws host port) = ws.owner_id ≡ u.id
  IsOwnPage u (mine_page v wss ds qs names filed) =
      ((w : Workspace) → In w wss → In w (running s.pods) × (w.owner_id ≡ u.id))
      × ((d : Denial) → In d ds → IsOwn s r u d.workspace_id)
      × ((q : Request) → In q qs → IsOwn s r u q.workspace_id)
  IsOwnPage u (queue_page v qs ds names) = ⊥
  IsOwnPage u (zones_page v zs names) = ⊥
  IsOwnPage u (workspaces_page v rows zs names) = ⊥
  IsOwnPage u (audit_page v rows) = ⊥

  -- A page that the response shows is one that the user may see.
  abbrev Fits : User → Response Page → Type 0
  Fits u resp = (p : Page) → resp ≡ page p → (u.admin ≡ true) ⊎ IsOwnPage u p

  -- The response shows no page, or one that a known user may see.
  abbrev Shown : Response Page → Type 0
  Shown resp =
      (is_page resp ≡ false)
      ⊎ ((u : User) × (user s.outside s.config s.now r ≡ some u) × Fits u resp)

-- A route that shows a page for administrators is for administrators, and one that shows another
-- page is for users.
unfoldable IsClosed : Route → Type 0
IsClosed t =
    (t.gate ≡ admins)
    ⊎ (((t.gate ≡ users) × (shows_all t.action ≡ false)) ⊎ (shows_page t.action ≡ false))
