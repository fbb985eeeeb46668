-- ===== src/Web/Examples/Serving.antt =====
-- The theorems on the routes at a request that the test hook files.
use sandcastle.Prelude.{
  refl, ◌≡◌, ◌⊎◌, ◌↔◌, false, none, some, Option, List, [], ◌∷◌, Str, codes, In, str_eq, ◌+◌,
  if◌then◌else◌,
}
use sandcastle.Policy.Rules.{Workspace}
use sandcastle.Cilium.Render.{ws_label}
use sandcastle.Http.{HttpRequest, page, internal}
use sandcastle.Auth.Config.{Config, User, no_user, test_user, Outside}
use sandcastle.Watch.{Pod, running, listed, by_id}
use sandcastle.Store.Db.{Env, Uuid, pending, Request, Denial, empty_db}
use sandcastle.Store.Requests.{list_requests, list_denials}
use sandcastle.Web.Pages.{Page, mine_page, queue_page}
use sandcastle.Web.Members.{file, file_for, reply, Site, own_workspaces, mine, names}
use sandcastle.Web.Own.{IsOwn, mine-IsOwn}
use sandcastle.Web.Routes.{serve, routes, route_match, perform}
use sandcastle.Auth.Gate.{require}
use sandcastle.Auth.Session.{user}
use sandcastle.Prelude.Sort.{sort}
use sandcastle.Web.Guarded.{MayWrite, serve_writes}
use sandcastle.Web.Signals.{serve_quiet}

abbrev outside : Outside
outside = record {
  hmac = λ key s. key;
  marshal_user = λ u. [];
  unmarshal_user = λ s. none;
  marshal_flow = λ f. [];
  unmarshal_flow = λ s. none;
  parse_url = λ s. none;
  auth_code_url = λ c state verifier. state;
  exchange = λ c code verifier. none;
  fetch = λ url header. none;
}

abbrev config : Config
config = record {
  coder_url = [];
  coder_internal_url = [];
  client_id = [];
  client_secret = [];
  callback_url = [];
  key = 7 ∷ [];
  test_token = codes "t0";
}

abbrev parse : Str → Option Uuid
parse [] = none
parse (c ∷ s) = some c

abbrev env : Env
env = record { now = 50; draw = λ n. 100 + n; parse_uuid = parse; show_uuid = λ u. u ∷ [] }

abbrev box : Pod
box = record {
  labels = (ws_label, codes "w") ∷ [];
  phase = codes "Running";
  pod_ip = codes "10.0.0.1";
  deleting = false;
}

abbrev site : Site
site = record {
  env = env;
  outside = outside;
  config = config;
  now = 50;
  bytes = [];
  verifier = [];
  lower = λ c. c;
  pods = box ∷ [];
  reads = λ n. empty_db;
}

abbrev form : Str → Str
form k =
    if str_eq k (codes "ws")
    then codes "w"
    else if str_eq k (codes "host")
    then codes "git.io"
    else if str_eq k (codes "port")
    then codes "443"
    else codes "why"

abbrev filing : HttpRequest
filing = record {
  method = codes "POST";
  path = codes "requests" ∷ [];
  uri = codes "/requests";
  authorization = codes "Bearer t0";
  cookie = λ name. none;
  form = form;
  query = λ name. none;
}

serve_writes_example :
    ((serve site empty_db filing).db ≡ empty_db)
    ⊎ ((u : User) × MayWrite site filing u empty_db (serve site empty_db filing).db)
serve_writes_example = serve_writes site empty_db filing

abbrev carl : User
carl = record no_user { id = []; name = codes "carl" }

mine-IsOwn_example :
    ((mine site filing carl ≡ internal)
      × ((w : Workspace) × In w (own_workspaces site carl) × (parse w.id ≡ none)))
    ⊎ ((ds : List Denial) × (qs : List Request) × (nm : _) × (fl : Str) × (mine site filing carl
          ≡ page (mine_page carl (own_workspaces site carl) ds qs nm fl))
        × ((w : Workspace)
            → In w (own_workspaces site carl)
              ↔ (In w (running (box ∷ [])) × (w.owner_id ≡ carl.id)))
        × ((d : Denial) → In d ds → In d empty_db.denials × IsOwn site filing carl d.workspace_id)
        × ((q : Request)
            → In q qs
            → In q empty_db.requests × IsOwn site filing carl q.workspace_id))
mine-IsOwn_example = mine-IsOwn site filing carl

-- No workspace is running.
abbrev idle : Site
idle = record site { pods = [] }

idle-changed : (serve idle empty_db filing).changed ≡ false
unfolding serve routes route_match str_eq codes require user test_user perform file by_id running
    sort listed file_for reply
idle-changed = refl

serve_quiet_example : (serve idle empty_db filing).db ≡ empty_db
serve_quiet_example = serve_quiet idle empty_db filing idle-changed

abbrev asking : HttpRequest
asking = record filing { method = codes "GET"; path = codes "queue" ∷ [] }

abbrev asking_page : Page
asking_page =
    queue_page test_user (list_requests (some pending) none empty_db) (list_denials none empty_db)
      (names site)
