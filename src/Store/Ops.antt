-- ===== src/Store/Ops.antt =====
-- One call of the store: every method of it that can write, and histories of calls.
use sandcastle.Prelude.{Bool, List, [], ◌∷◌, Str}
use sandcastle.Prelude.Int.{ℤ}
use sandcastle.Policy.Rules.{Rule}
use sandcastle.Store.Db.{Env, Db, Detail}
use sandcastle.Store.Zones.{
  create_zone, clone_zone, rename_zone, delete_zone, set_default_zone, assign,
}
use sandcastle.Store.Rules.{add_zone_rule, delete_rule, grant_rule, expire_grants}
use sandcastle.Store.Requests.{file_request, decide, record_denial}
use sandcastle.Store.Load.{seed, audit_system}

pub data Op : Type 0 where
  seeds expires : Op
  creates_zone : (actor name : Str) → Op
  clones_zone renames_zone : (actor id name : Str) → Op
  deletes_zone sets_default : (actor id : Str) → Op
  adds_rule : (actor zone : Str) → Rule → Op
  deletes_rule : (actor id : Str) → Op
  assigns : (actor ws zone : Str) → Op
  grants_rule : (actor ws : Str) → Rule → ℤ → Op
  files : (actor ws host : Str) → ℤ → Str → Op
  decides : (actor id : Str) → Bool → ℤ → Op
  records : (ws host : Str) → ℤ → Op
  audits : Str → Detail → Op

-- The database that a call leaves, whether it succeeds or not.
unfoldable pub step : Env → Op → Db → Db
step env seeds db = (seed env db).1
step env expires db = (expire_grants env db).1
step env (creates_zone actor name) db = (create_zone env actor name db).1
step env (clones_zone actor id name) db = (clone_zone env actor id name db).1
step env (renames_zone actor id name) db = (rename_zone env actor id name db).1
step env (deletes_zone actor id) db = (delete_zone env actor id db).1
step env (sets_default actor id) db = (set_default_zone env actor id db).1
step env (adds_rule actor zone r) db = (add_zone_rule env actor zone r db).1
step env (deletes_rule actor id) db = (delete_rule env actor id db).1
step env (assigns actor ws zone) db = (assign env actor ws zone db).1
step env (grants_rule actor ws r ttl) db = (grant_rule env actor ws r ttl db).1
step env (files actor ws host port why) db = (file_request env actor ws host port why db).1
step env (decides actor id approve ttl) db = (decide env actor id approve ttl db).1
step env (records ws host port) db = (record_denial env ws host port db).1
step env (audits action detail) db = (audit_system env action detail db).1

-- Calls one after another, each in an environment of its own.
unfoldable pub run : List (Env × Op) → Db → Db
run [] db = db
run ((env, op) ∷ ops) db = run ops (step env op db)
