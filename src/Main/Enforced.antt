-- ===== src/Main/Enforced.antt =====
-- From the tables to Envoy's access control: what a run of `apply` of
-- admin/cmd/sandcastle-admin/main.go puts into force.
use sandcastle.Prelude.{◌≡◌, some, List, Str, In}
use sandcastle.Prelude.Int.{ℤ}
use sandcastle.Policy.Rules.{Rule, Workspace, Input}
use sandcastle.Policy.Valid.{IsHostRule}
use sandcastle.Policy.Hosts.Access.{HostMatches}
use sandcastle.Watch.{Pod, Runs, running}
use sandcastle.Store.Db.{Env, ReadsBack, Uuid, Db}
use sandcastle.Store.Load.{policy_input}
use sandcastle.Store.Invariant.{Wf}
use sandcastle.Store.InForce.{HasRule}
use sandcastle.Xds.Json.{Json}
use sandcastle.Xds.Build.{Resources}
use sandcastle.Xds.Server.{XdsServer, Cache}
use sandcastle.Main.Reconcile.{with_pods}

-- A running pod has the address, and its workspace a rule of the tables, in force, for the host.
pub record Granted (env : Env) (db : Db) (pods : List Pod) (x host : Str) (port : ℤ) : Type 0 where
  pub pod : Pod
  pub listed : In pod pods
  pub shown : Workspace
  pub runs : Runs pod shown
  pub address : shown.ip ≡ x
  pub ws : Uuid
  pub is_id : shown.id ≡ env.show_uuid ws
  pub rule : Rule
  pub is_valid : IsHostRule rule
  pub has_rule : HasRule env db ws rule
  pub same_port : rule.port ≡ port
  pub fits : HostMatches rule.value host

-- The labels of the running pods hold workspace ids as Postgres prints them.
abbrev pub HasIds : Env → List Pod → Type 0
HasIds env pods = (w : Workspace) → In w (running pods) → (ws : Uuid) × (w.id ≡ env.show_uuid ws)

module _ (env : Env) (db : Db) (pods : List Pod) (back : ReadsBack env) (wf : Wf db) where
  abbrev loaded : Input
  loaded = with_pods pods (policy_input env db db db)

-- A push that succeeds stores a snapshot of its resources.
abbrev pub Stored : {M S : Type 0} → Cache M S → Resources M → XdsServer S → Type 0
Stored {S = S} cache res x =
    (version : Str) × (snap : S) × (cache.new_snapshot version res ≡ some snap)
    × (x.snapshot ≡ some snap)
