-- ===== src/Policy/Hosts.antt =====
-- `HostIPs` of admin/internal/policy/policy.go. A Go map is ranged over in any order, so the order
-- of the merging loop is an argument.
pub mod Sets
pub mod Merge
pub mod Collect
pub mod Order
pub mod Access
pub mod Keys
use sandcastle.Prelude.{
  Bool, true, false, not, ◌&&◌, ◌≡◌, Option, none, some, List, [], ◌∷◌, ◌++◌, Str, str_eq, str_lt,
  map, any, if◌then◌else◌,
}
use sandcastle.Prelude.Int.{ℤ, int_eq}
use sandcastle.Prelude.Affix.{cut_char, has_suffix}
use sandcastle.Prelude.Sort.{sort}
use sandcastle.Policy.Rules.{Rule, Workspace, Input, host_kind, effective}

pub record HostKey : Type 0 where
  pub host : Str
  pub port : ℤ

unfoldable pub key_eq : HostKey → HostKey → Bool
key_eq k l = str_eq k.host l.host && int_eq k.port l.port

-- map[HostKey]map[string]bool: each key with its addresses, none twice.
abbrev pub IpSet : Type 0
IpSet = List (HostKey × List Str)

abbrev pub keys_of : IpSet → List HostKey
keys_of = map (λ e. e.0)

-- set[k]; a missing key has no addresses.
unfoldable pub ips_at : HostKey → IpSet → List Str
ips_at k [] = []
ips_at k ((j, ips) ∷ s) = if key_eq j k then ips else ips_at k s

-- ips[ip] = true
unfoldable pub add_member : Str → List Str → List Str
add_member ip ips = if any (str_eq ip) ips then ips else ips ++ ip ∷ []

-- set[k][ip] = true, on a new inner map if there is none.
unfoldable pub add_ip : HostKey → Str → IpSet → IpSet
add_ip k ip [] = (k, ip ∷ []) ∷ []
add_ip k ip ((j, ips) ∷ s) =
    if key_eq j k then (j, add_member ip ips) ∷ s else (j, ips) ∷ add_ip k ip s

abbrev pub rule_key : Rule → HostKey
rule_key r = record { host = r.value; port = r.port }

unfoldable pub add_rules : List Rule → Str → IpSet → IpSet
add_rules [] ip s = s
add_rules (r ∷ rs) ip s = add_rules rs ip (add_ip (rule_key r) ip s)

-- The first loop, over the pods.
unfoldable pub collect : Input → List Workspace → IpSet → IpSet
collect p [] s = s
collect p (w ∷ ws) s =
    collect p ws (if str_eq w.ip [] then s else add_rules (effective p w.id host_kind) w.ip s)

-- for ip := range wips { ips[ip] = true }
unfoldable pub add_all : List Str → List Str → List Str
add_all [] ips = ips
add_all (ip ∷ wips) ips = add_all wips (add_member ip ips)

-- k != wk && k.Port == wk.Port && strings.HasSuffix(k.Host, suffix)
unfoldable pub covered : HostKey → Str → HostKey → Bool
covered wk suffix k = not (key_eq k wk) && (int_eq k.port wk.port && has_suffix k.host suffix)

-- The inner loop: the addresses of `wk` go to every key that it covers. They do not change
-- meanwhile, since no key covers itself.
unfoldable pub spread : HostKey → Str → List Str → IpSet → IpSet
spread wk suffix wips [] = []
spread wk suffix wips ((k, ips) ∷ s) =
    (k, if covered wk suffix k then add_all wips ips else ips) ∷ spread wk suffix wips s

unfoldable pub merge_key : HostKey → IpSet → IpSet
merge_key wk s = elim (cut_char b'*' wk.host) [
  | none ↦ s
  | some suffix ↦ spread wk suffix (ips_at wk s) s
]

-- The second loop, over the keys in the order in which the map yields them.
unfoldable pub merge : List HostKey → IpSet → IpSet
merge [] s = s
merge (wk ∷ order) s = merge order (merge_key wk s)

-- The third loop: each key's addresses, sorted.
unfoldable pub sorted : IpSet → IpSet
sorted [] = []
sorted ((k, ips) ∷ s) = (k, sort str_lt ips) ∷ sorted s

unfoldable pub collected : Input → IpSet
collected p = collect p p.pods []

unfoldable pub host_ips : List HostKey → Input → IpSet
host_ips order p = sorted (merge order (collected p))
