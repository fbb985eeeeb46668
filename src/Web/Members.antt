-- ===== src/Web/Members.antt =====
-- The handlers of admin/internal/web/handlers.go for every user, with `hostPort`, `own`, `names` and
-- `ruleFrom` of admin/internal/web/web.go.
use sandcastle.Prelude.{
  ℕ, Bool, false, not, ◌||◌, Option, none, some, List, [], ◌∷◌, ◌++◌, Str, codes, str_eq, keep,
  if◌then◌else◌,
}
use sandcastle.Prelude.Assoc.{Map, put}
use sandcastle.Prelude.Int.{ℤ, pos}
use sandcastle.Policy.Rules.{Rule, Workspace, host_kind, valid_rule}
use sandcastle.Go.Strings.{to_lower, trim_space}
use sandcastle.Go.Numbers.{atoi}
use sandcastle.Go.Net.{split_host_port}
use sandcastle.Go.Url.{query_escape}
use sandcastle.Http.{
  HttpRequest, Response, found, page, missing, forbidden, bad_request, internal, or_empty,
}
use sandcastle.Auth.Config.{User, Config, Outside}
use sandcastle.Watch.{Pod, running, by_ip, by_id}
use sandcastle.Store.Db.{Env, Uuid, Db, Result, ok, err}
use sandcastle.Store.Requests.{file_request, list_requests, list_denials}
use sandcastle.Web.Pages.{Page, request_page, mine_page}
use sandcastle.Web.Forms.{Answer, finish}

-- The server and what one request meets: Postgres's answers, a Unix time, random bytes, a verifier,
-- the lower case of a letter, the pods, and the database that the n-th query outside a transaction
-- reads.
pub record Site : Type 0 where
  pub env : Env
  pub outside : Outside
  pub config : Config
  pub now : ℕ
  pub bytes : List ℕ
  pub verifier : Str
  pub lower : ℕ → ℕ
  pub pods : List Pod
  pub reads : ℕ → Db

-- An answer that changed nothing.
unfoldable pub reply : Db → Response Page → Answer
reply db resp = record { response = resp; changed = false; db = db }

-- strings.ToLower(strings.TrimSpace(s))
unfoldable pub clean : Site → Str → Str
clean s v = to_lower s.lower (trim_space v)

-- ruleFrom
unfoldable pub rule_from : Site → HttpRequest → Rule
unfolding clean
rule_from s r = record {
  kind = r.form (codes "kind");
  value = clean s (r.form (codes "value"));
  port =
      if str_eq (r.form (codes "kind")) host_kind then (atoi (r.form (codes "port"))).0 else pos 0;
}

-- hostPort
unfoldable pub host_or_default : Str → Option (Str × Str) → Str × ℤ
host_or_default authority none = (authority, pos 80)
host_or_default authority (some (host, port)) = (host, (atoi port).0)

unfoldable pub host_port : Site → Str → Str × ℤ
unfolding host_or_default clean
host_port s authority = host_or_default (clean s authority) (split_host_port (clean s authority))

-- own
unfoldable pub owns : User → Workspace → Bool
owns u ws = u.admin || str_eq ws.owner_id u.id

-- names: the name that the last of a workspace's pods has.
unfoldable pub add_names : List Workspace → Map Str → Map Str
add_names [] m = m
add_names (ws ∷ wss) m = add_names wss (put ws.id ws.name m)

unfoldable pub names : Site → Map Str
unfolding add_names
names s = add_names (running s.pods) []

unfoldable pub home : User → Response Page
home u = if u.admin then found [] (codes "/queue") else found [] (codes "/mine")

-- The workspace of a link: by src=, and by ws= only where there is no src=.
unfoldable pub linked : Site → HttpRequest → Option Workspace
unfolding or_empty
linked s r = elim (r.query (codes "src")) [
  | some ip ↦ by_ip ip s.pods
  | none ↦ by_id (or_empty (r.query (codes "ws"))) s.pods
]

unfoldable pub form_for : Site → HttpRequest → User → Option Workspace → Response Page
unfolding owns host_port or_empty
form_for s r u none = missing
form_for s r u (some ws) =
    let (host, port) = host_port s (or_empty (r.query (codes "host"))) in
    if not (owns u ws)
    then forbidden
    else if not (valid_rule (record { kind = host_kind; value = host; port = port }))
    then bad_request
    else page (request_page u ws host port)

-- requestForm
unfoldable pub request_form : Site → HttpRequest → User → Response Page
unfolding form_for linked
request_form s r u = form_for s r u (linked s r)

-- Where a filed request is shown.
unfoldable pub filed : Env → Result Uuid × Db → Answer
unfolding finish
filed env (ok id, db) = finish (codes "/mine?filed=" ++ query_escape (env.show_uuid id)) (ok id, db)
filed env (err e, db) = finish {A = Uuid} [] (err e, db)

unfoldable pub file_for : Site → HttpRequest → User → Db → Option Workspace → Answer
unfolding filed owns clean reply
file_for s r u db none = reply db missing
file_for s r u db (some ws) =
    if not (owns u ws)
    then reply db forbidden
    else filed s.env (
        file_request s.env u.name ws.id (clean s (r.form (codes "host")))
          (atoi (r.form (codes "port"))).0 (trim_space (r.form (codes "justification"))) db)

-- fileRequest
unfoldable pub file : Site → HttpRequest → User → Db → Answer
unfolding file_for
file s r u db = file_for s r u db (by_id (r.form (codes "ws")) s.pods)

-- The workspaces of a user.
unfoldable pub own_workspaces : Site → User → List Workspace
own_workspaces s u = keep (λ ws. str_eq ws.owner_id u.id) (running s.pods)

-- A uuid[] parameter: an element that is no uuid is an error.
unfoldable pub parse_one : Option Uuid → Option (List Uuid) → Option (List Uuid)
parse_one (some u) (some us) = some (u ∷ us)
parse_one (some u) none = none
parse_one none us = none

unfoldable pub parse_ids : Env → List Workspace → Option (List Uuid)
unfolding parse_one
parse_ids env [] = some []
parse_ids env (ws ∷ wss) = parse_one (env.parse_uuid ws.id) (parse_ids env wss)

unfoldable pub mine_of : Site → HttpRequest → User → Option (List Uuid) → Response Page
unfolding or_empty
mine_of s r u none = internal
mine_of s r u (some ids) = page (
    mine_page u (own_workspaces s u) (list_denials (some ids) (s.reads 0))
      (list_requests none (some ids) (s.reads 1)) (add_names (own_workspaces s u) [])
      (or_empty (r.query (codes "filed"))))

-- mine
unfoldable pub mine : Site → HttpRequest → User → Response Page
unfolding mine_of parse_ids own_workspaces
mine s r u = mine_of s r u (parse_ids s.env (own_workspaces s u))
