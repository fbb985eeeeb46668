-- ===== src/Main/Examples/Names.antt =====
-- The theorem on DNS policies at a database with one DNS rule and an empty cluster.
use sandcastle.Prelude.{[], ◌∷◌, ◌++◌, Str, codes}
use sandcastle.Prelude.Int.{pos}
use sandcastle.Policy.Rules.{Rule, Input, dns_kind}
use sandcastle.Cilium.Render.{Cnp, match_name, cnp, default_expr}
use sandcastle.Cilium.Apply
use sandcastle.Cilium.Examples.DeepEqual.{deep_equal}
use sandcastle.Cilium.Examples.OneObject.{Slot, slot_api}
use sandcastle.Store.Db.{Db}
use sandcastle.Store.Load.{policy_input}
use sandcastle.Main.Reconcile.{World}
use sandcastle.Main.Examples.{world, env, db, git_row}

-- The cluster has room for one object.
abbrev cluster_world : World (Unit {0}) Str Slot
cluster_world = record {
  sha256 = world.sha256;
  decode = world.decode;
  cache = world.cache;
  api = slot_api;
  spec_eq = deep_equal;
}

abbrev dns_rule : Rule
dns_rule = record { kind = dns_kind; value = codes "git.io"; port = pos 0 }

abbrev dns_db : Db
dns_db = record db { rules = (record git_row { rule = dns_rule }) ∷ [] }

abbrev loaded : Input
loaded = policy_input env dns_db dns_db dns_db

abbrev dns_cnp : Cnp
dns_cnp = cnp (codes "ws-dns-zone-" ++ 5 ∷ []) (default_expr []) (match_name (codes "git.io") ∷ [])
