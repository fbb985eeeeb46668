-- ===== src/Main/Examples.antt =====
-- The theorems on the server's wiring.
mod Names
use sandcastle.Prelude.{
  ◌==◌, if◌then◌else◌, ℕ, ◌+◌, ◌≡◌, ◌⊎◌, refl, true, false, Option, none, some, List, [], ◌∷◌, Str,
  codes, str_eq,
}
use sandcastle.Prelude.Int.{pos}
use sandcastle.Prelude.Assoc.{get}
use sandcastle.Policy.Rules.{Rule, Input, host_kind}
use sandcastle.Policy.Hosts.{HostKey}
use sandcastle.Watch.{Pod}
use sandcastle.Cilium.Render.{ws_label}
use sandcastle.Cilium.Apply.{value, not_found}
use sandcastle.Cilium.Apply
use sandcastle.Store.Db.{Env, Uuid, Zone, RuleRow, Db}
use sandcastle.Store.Load
use sandcastle.Xds.Json.{Json}
use sandcastle.Xds.Admits.{InRange}
use sandcastle.Xds.Server.{XdsServer}
use sandcastle.Main.Reconcile.{World, Ordered, apply-Ordered}
use sandcastle.Main.Loop.{
  Server, TickStep, start, Reach, begin, writes, changed, notified, Catches, changes_caught, notify,
}

-- Messages and snapshots without content, and an API whose state counts the calls that change it.
abbrev world : World (Unit {0}) Str ℕ
world = record {
  sha256 = λ s. s;
  decode = λ kind v. some tt;
  cache = record {
    new_snapshot = λ v res. some v;
    is_consistent = λ s. true;
    responds = λ s. true;
  };
  api = record {
    get = λ name n. (not_found, n);
    create = λ c n. (value tt, n + 1);
    update = λ c v n. (value tt, n + 1);
    list = λ n. (value [], n);
    delete = λ name n. (value tt, n + 1);
  };
  spec_eq = λ a b. true;
}

abbrev input : Input
input = record { default_zone = []; zone_rules = []; assign = []; grants = []; pods = [] }

abbrev xds : XdsServer Str
xds = record { version = 0; snapshot = none }

apply-Ordered_example : Ordered world (codes "http://admin") [] (some input) [] xds 0
apply-Ordered_example = apply-Ordered world (codes "http://admin") [] (some input) [] xds 0

-- One change, made and notified.
abbrev made : Server
made = record start { changes = 1; owed = 1 }

abbrev told : Server
told = record made { owed = 0; signal = true }

told-Reach : Reach told
unfolding notify
told-Reach = writes made told (writes start made begin (changed start)) (notified made 0 refl)

changes_caught_example :
    Catches told
    ⊎ ((told.failed ≡ true)
        × (t : Server) × TickStep told t
        × (t.changes ≡ told.changes)
        × Catches t)
changes_caught_example = changes_caught told told-Reach refl

-- One zone with one rule, and one pod of a workspace in it. A uuid is written as one character.
abbrev parse : Str → Option Uuid
parse [] = none
parse (c ∷ []) = some c
parse (c ∷ d ∷ s) = none

abbrev env : Env
env = record { now = 30; draw = λ n. 100 + n; parse_uuid = parse; show_uuid = λ u. u ∷ [] }

abbrev main_zone : Zone
main_zone = record { id = 5; name = codes "default"; is_default = true }

abbrev git_rule : Rule
git_rule = record { kind = host_kind; value = codes "git.io"; port = pos 443 }

abbrev git_row : RuleRow
git_row = record {
  id = 10;
  zone_id = some 5;
  workspace_id = none;
  rule = git_rule;
  expires_at = none;
  created_by = codes "ann";
}

abbrev db : Db
db = record {
  zones = main_zone ∷ [];
  rules = git_row ∷ [];
  assignments = [];
  requests = [];
  denials = [];
  audit = [];
}

abbrev pods : List Pod
pods =
    record {
      labels = (ws_label, 7 ∷ []) ∷ [];
      phase = codes "Running";
      pod_ip = codes "10.0.0.1";
      deleting = false;
    }
    ∷ []

abbrev git_key : HostKey
unfolding codes
git_key = record { host = codes "git.io"; port = pos 443 }

-- Ranges of 32 bits; a shorter one is taken to hold every address.
abbrev in_range : InRange
in_range a n x = if n == 32 then str_eq a x else true
