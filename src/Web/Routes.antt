-- ===== src/Web/Routes.antt =====
-- `Routes` of admin/internal/web/web.go. A path is the segments between its slashes, "/" being one
-- empty segment, as the router has cleaned it.
use sandcastle.Prelude.{
  Bool, true, false, ◌&&◌, ◌||◌, Option, none, some, List, [], ◌∷◌, Str, codes, str_eq, any,
  if◌then◌else◌,
}
use sandcastle.Http.{HttpRequest, healthy, missing, bad_method}
use sandcastle.Auth.Config.{User, no_user}
use sandcastle.Auth.Gate.{require}
use sandcastle.Auth.Login.{login, callback, logout}
use sandcastle.Store.Db.{Db}
use sandcastle.Web.Forms.{Answer, approve, deny}
use sandcastle.Web.Members.{Site, reply, home, request_form, file, mine}
use sandcastle.Web.Admins.{
  queue, zones, create, clone, rename, delete, make_default, add_to_zone, remove_rule, workspaces,
  assign_zone, grant_to, audit_rows,
}

pub data Segment : Type 0 where
  literal : Str → Segment
  wildcard : Segment

-- Without a user, for every user, or for administrators.
pub data Gate : Type 0 where
  everyone users admins : Gate

pub data Action : Type 0 where
  healthz logs_in returns logs_out goes_home shows_form files shows_own shows_queue approves
        denies :
      Action
  shows_zones creates clones renames deletes defaults adds_rule removes_rule : Action
  shows_workspaces assigns grants shows_audit : Action

pub record Route : Type 0 where
  pub gate : Gate
  pub method : Str
  pub pattern : List Segment
  pub action : Action

abbrev get_at : Gate → List Segment → Action → Route
get_at g p a = record { gate = g; method = codes "GET"; pattern = p; action = a }

abbrev post_at : Gate → List Segment → Action → Route
post_at g p a = record { gate = g; method = codes "POST"; pattern = p; action = a }

-- /a, and /a/{id}/b
abbrev at : Str → List Segment
at a = literal a ∷ []

abbrev under : Str → Str → List Segment
under a b = literal a ∷ wildcard ∷ literal b ∷ []

unfoldable pub routes : List Route
routes =
    get_at everyone (at (codes "healthz")) healthz
    ∷ get_at everyone (at (codes "login")) logs_in
    ∷ get_at everyone (at (codes "callback")) returns
    ∷ post_at users (at (codes "logout")) logs_out
    ∷ get_at users (at []) goes_home
    ∷ get_at users (at (codes "r")) shows_form
    ∷ post_at users (at (codes "requests")) files
    ∷ get_at users (at (codes "mine")) shows_own
    ∷ get_at admins (at (codes "queue")) shows_queue
    ∷ post_at admins (under (codes "requests") (codes "approve")) approves
    ∷ post_at admins (under (codes "requests") (codes "deny")) denies
    ∷ get_at admins (at (codes "zones")) shows_zones
    ∷ post_at admins (at (codes "zones")) creates
    ∷ post_at admins (under (codes "zones") (codes "clone")) clones
    ∷ post_at admins (under (codes "zones") (codes "rename")) renames
    ∷ post_at admins (under (codes "zones") (codes "delete")) deletes
    ∷ post_at admins (under (codes "zones") (codes "default")) defaults
    ∷ post_at admins (under (codes "zones") (codes "rules")) adds_rule
    ∷ post_at admins (under (codes "rules") (codes "delete")) removes_rule
    ∷ get_at admins (at (codes "workspaces")) shows_workspaces
    ∷ post_at admins (under (codes "workspaces") (codes "zone")) assigns
    ∷ post_at admins (under (codes "workspaces") (codes "grants")) grants
    ∷ get_at admins (at (codes "audit")) shows_audit
    ∷ []

-- The value of {id}, empty without one; a wildcard takes one segment that is not empty.
unfoldable pub match_path : Str → List Segment → List Str → Option Str
match_path id [] [] = some id
match_path id [] (s ∷ ss) = none
match_path id (p ∷ ps) [] = none
match_path id (literal t ∷ ps) (s ∷ ss) = if str_eq s t then match_path id ps ss else none
match_path id (wildcard ∷ ps) ([] ∷ ss) = none
match_path id (wildcard ∷ ps) ((c ∷ s) ∷ ss) = match_path (c ∷ s) ps ss

-- A pattern's GET serves HEAD too.
unfoldable pub serves_method : Route → HttpRequest → Bool
serves_method t r =
    str_eq r.method t.method || (str_eq t.method (codes "GET") && str_eq r.method (codes "HEAD"))

unfoldable pub route_match : Route → HttpRequest → Option Str
unfolding match_path serves_method
route_match t r = if serves_method t r then match_path [] t.pattern r.path else none

-- No request matches two of the patterns.
unfoldable pub find_route : List Route → HttpRequest → Option (Route × Str)
find_route [] r = none
find_route (t ∷ ts) r = elim (route_match t r) [ some id ↦ some (t, id) | none ↦ find_route ts r ]

unfoldable pub has_path : HttpRequest → Route → Bool
unfolding match_path
has_path r t = elim (match_path [] t.pattern r.path) [ none ↦ false | some id ↦ true ]

-- The handler of an action, for the user that the gate found and the {id} of the path.
unfoldable pub perform : Site → Action → Str → Db → HttpRequest → User → Answer
perform s healthz id db r u = reply db healthy
perform s logs_in id db r u = reply db (login s.outside s.config s.now s.bytes s.verifier r)
perform s returns id db r u = reply db (callback s.outside s.config s.now s.bytes r)
perform s logs_out id db r u = reply db (logout s.outside s.config)
perform s goes_home id db r u = reply db (home u)
perform s shows_form id db r u = reply db (request_form s r u)
perform s files id db r u = file s r u db
perform s shows_own id db r u = reply db (mine s r u)
perform s shows_queue id db r u = reply db (queue s u)
perform s approves id db r u = approve s.env r.form u id db
perform s denies id db r u = deny s.env u id db
perform s shows_zones id db r u = reply db (zones s u)
perform s creates id db r u = create s r u db
perform s clones id db r u = clone s r u id db
perform s renames id db r u = rename s r u id db
perform s deletes id db r u = delete s u id db
perform s defaults id db r u = make_default s u id db
perform s adds_rule id db r u = add_to_zone s r u id db
perform s removes_rule id db r u = remove_rule s r u id db
perform s shows_workspaces id db r u = reply db (workspaces s u)
perform s assigns id db r u = assign_zone s r u id db
perform s grants id db r u = grant_to s r u id db
perform s shows_audit id db r u = reply db (audit_rows s u)

-- Require, around the handler.
unfoldable pub guarded : Site → Bool → Action → Str → Db → HttpRequest → Answer
guarded s admin a id db r = require (reply db) s.outside s.config s.now admin (perform s a id db) r

unfoldable pub enter : Site → Gate → Action → Str → Db → HttpRequest → Answer
unfolding guarded
enter s everyone a id db r = perform s a id db r no_user
enter s users a id db r = guarded s false a id db r
enter s admins a id db r = guarded s true a id db r

unfoldable pub dispatch : Site → Db → HttpRequest → Option (Route × Str) → Answer
unfolding enter has_path
dispatch s db r (some (t, id)) = enter s t.gate t.action id db r
dispatch s db r none = reply db (if any (has_path r) routes then bad_method else missing)

-- One request to the server.
unfoldable pub serve : Site → Db → HttpRequest → Answer
unfolding dispatch find_route
serve s db r = dispatch s db r (find_route routes r)
