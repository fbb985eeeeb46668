-- ===== src/Web/Examples.antt =====
-- The theorems on the handlers at a database with one pending request.
mod Serving
use sandcastle.Prelude.{
  ◌+◌, ◌≤◌, ◌<◌, ◌≡◌, ◌≢◌, ◌⊎◌, refl, true, false, none, some, Option, [], ◌∷◌, Str, codes, str_eq,
}
use sandcastle.Prelude.Assoc.{get}
use sandcastle.Prelude.Int.{pos}
use sandcastle.Store.Db.{Env, Uuid, Request, pending, Db, empty_db, ok, map_err}
use sandcastle.Http.{see_other}
use sandcastle.Auth.Config.{User, no_user}
use sandcastle.Web.Forms.{Form, hour, ttls, ttl_choice, ttl_for, ttl_for_bound, approve_atomic}

abbrev parse : Str → Option Uuid
parse [] = none
parse (c ∷ []) = some c
parse (c ∷ d ∷ s) = none

abbrev env : Env
env = record { now = 50; draw = λ n. 100 + n; parse_uuid = parse; show_uuid = λ u. u ∷ [] }

abbrev asked : Request
asked = record {
  id = 9;
  workspace_id = 7;
  host = codes "git.io";
  port = pos 443;
  justification = codes "build";
  requester = codes "bob";
  status = pending;
  decided_by = none;
  ttl = none;
  created_at = 30;
  decided_at = none;
}

abbrev one_request : Db
one_request = record empty_db { requests = asked ∷ [] }

abbrev ann : User
ann = record no_user { id = codes "u1"; name = codes "ann"; admin = true }

abbrev day_form : Form
day_form k = codes "24h"

day_form-ttl : ttl_for day_form ann ≡ ok 86400000000
unfolding ttl_for ttl_choice ttls get codes str_eq
day_form-ttl = refl
