-- ===== src/Policy/Rules.antt =====
-- The types of admin/internal/policy/policy.go, `ValidRule`, `ZoneOf` and `Effective`.
use sandcastle.Prelude.{
  Bool, false, ◌&&◌, ◌||◌, none, some, List, [], ◌++◌, Str, codes, str_eq, keep, if◌then◌else◌,
}
use sandcastle.Prelude.Int.{ℤ, pos, int_eq}
use sandcastle.Prelude.Assoc.{Map, get}
use sandcastle.Policy.Name.{valid_name}

pub record Rule : Type 0 where
  pub kind : Str
  pub value : Str
  pub port : ℤ

pub record Workspace : Type 0 where
  pub id : Str
  pub name : Str
  pub owner_id : Str
  pub ip : Str

pub record Input : Type 0 where
  pub default_zone : Str
  pub zone_rules : Map (List Rule)
  pub assign : Map Str
  pub grants : Map (List Rule)
  pub pods : List Workspace

unfoldable pub host_kind : Str
host_kind = codes "host"

unfoldable pub dns_kind : Str
dns_kind = codes "dns"

unfoldable pub valid_rule : Rule → Bool
valid_rule r =
    if str_eq r.kind host_kind
    then (int_eq r.port (pos 443) || int_eq r.port (pos 80)) && valid_name r.value
    else if str_eq r.kind dns_kind
    then int_eq r.port (pos 0) && valid_name r.value
    else false

unfoldable pub zone_of : Input → Str → Str
zone_of p ws = elim (get ws p.assign) [ none ↦ p.default_zone | some z ↦ z ]

-- A Go map of slices reads a missing key as the empty slice.
unfoldable pub rules_at : Str → Map (List Rule) → List Rule
rules_at k m = elim (get k m) [ none ↦ [] | some rs ↦ rs ]

unfoldable pub usable : Str → Rule → Bool
usable kind r = str_eq r.kind kind && valid_rule r

-- The zone's rules first, then the grants; what is invalid is dropped here too.
unfoldable pub effective : Input → Str → Str → List Rule
effective p ws kind =
    keep (usable kind) (rules_at (zone_of p ws) p.zone_rules)
    ++ keep (usable kind) (rules_at ws p.grants)
