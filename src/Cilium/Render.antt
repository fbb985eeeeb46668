-- ===== src/Cilium/Render.antt =====
-- `Render`, `match`, `dnsRules` and `cnp` of admin/internal/cilium/cilium.go. The loops over Go's
-- maps run in the order of the association lists.
use sandcastle.Prelude.{
  not, ◌||◌, Option, none, some, List, [], ◌∷◌, ◌++◌, Str, codes, str_eq, str_lt, if◌then◌else◌,
}
use sandcastle.Prelude.Affix.{has_prefix}
use sandcastle.Prelude.Assoc.{Map, get, put}
use sandcastle.Prelude.Sort.{sort}
use sandcastle.Policy.Rules.{Rule, Input, dns_kind, valid_rule}

abbrev pub ws_label : Str
ws_label = codes "com.coder.workspace.id"

abbrev pub owner_label : Str
owner_label = codes "app.kubernetes.io/managed-by"

abbrev pub owner_value : Str
owner_value = codes "sandcastle-admin"

abbrev pub namespace : Str
namespace = codes "sandcastle-workspaces"

-- One of a selector's matchExpressions; `values` is there unless the Go slice is nil.
pub record Match : Type 0 where
  pub key : Str
  pub operator : Str
  pub values : Option (List Str)

pub data DnsRule : Type 0 where
  match_pattern match_name : Str → DnsRule

pub record Spec : Type 0 where
  pub selector : List Match
  pub to_endpoints : List (Str × Str)
  pub ports : List (Str × Str)
  pub dns : List DnsRule

-- A CiliumNetworkPolicy: its name, namespace, labels and spec.
pub record Cnp : Type 0 where
  pub name : Str
  pub namespace : Str
  pub labels : Map Str
  pub spec : Spec

abbrev pub exists_op : Str
exists_op = codes "Exists"

abbrev pub in_op : Str
in_op = codes "In"

abbrev pub not_in_op : Str
not_in_op = codes "NotIn"

unfoldable pub match_on : Str → Option (List Str) → Match
match_on op values = record { key = ws_label; operator = op; values = values }

unfoldable pub dns_rules : List Rule → List DnsRule
dns_rules [] = []
dns_rules (r ∷ rules) =
    if not (str_eq r.kind dns_kind) || not (valid_rule r)
    then dns_rules rules
    else (if has_prefix r.value (codes "*.") then match_pattern r.value else match_name r.value)
      ∷ dns_rules rules

unfoldable pub cnp : Str → List Match → List DnsRule → Cnp
cnp name expr dns = record {
  name = name;
  namespace = namespace;
  labels = (owner_label, owner_value) ∷ [];
  spec = record {
    selector = expr;
    to_endpoints =
        (codes "k8s:io.kubernetes.pod.namespace", codes "kube-system")
        ∷ (codes "k8s:k8s-app", codes "kube-dns")
        ∷ [];
    ports = (codes "53", codes "UDP") ∷ (codes "53", codes "TCP") ∷ [];
    dns = dns;
  };
}

-- The workspaces assigned to each zone but the default, and all of them.
pub record Members : Type 0 where
  pub members : Map (List Str)
  pub elsewhere : List Str

unfoldable pub members_at : Str → Map (List Str) → List Str
members_at z m = elim (get z m) [ none ↦ [] | some ids ↦ ids ]

-- if z != in.DefaultZone { … }
unfoldable pub add_assigned : Str → Str → Str → Members → Members
add_assigned d ws z acc = if str_eq z d then acc else record {
  members = put z (members_at z acc.members ++ ws ∷ []) acc.members;
  elsewhere = acc.elsewhere ++ ws ∷ [];
}

unfoldable pub collect_members : Str → Map Str → Members → Members
collect_members d [] acc = acc
collect_members d ((ws, z) ∷ assign) acc = collect_members d assign (add_assigned d ws z acc)

unfoldable pub members_of : Input → Members
members_of p = collect_members p.default_zone p.assign (record { members = []; elsewhere = [] })

unfoldable pub default_expr : List Str → List Match
default_expr [] = match_on exists_op none ∷ []
default_expr (ws ∷ elsewhere) =
    match_on exists_op none ∷ match_on not_in_op (some (ws ∷ elsewhere)) ∷ []

unfoldable pub zone_expr : List Str → Option (List Match)
zone_expr [] = none
zone_expr (ws ∷ ids) = some (match_on in_op (some (sort str_lt (ws ∷ ids))) ∷ [])

-- The selector of a zone's policy; none where the zone has no workspace.
unfoldable pub zone_selector : Input → Str → Option (List Match)
zone_selector p z =
    if str_eq z p.default_zone
    then some (default_expr (sort str_lt (members_of p).elsewhere))
    else zone_expr (members_at z (members_of p).members)

unfoldable pub zone_policy : Input → Str → List DnsRule → List Cnp
zone_policy p z [] = []
zone_policy p z (d ∷ dns) = elim (zone_selector p z) [
  | none ↦ []
  | some expr ↦ cnp (codes "ws-dns-zone-" ++ z) expr (d ∷ dns) ∷ []
]

unfoldable pub zone_policies : Input → Map (List Rule) → List Cnp
zone_policies p [] = []
zone_policies p ((z, rules) ∷ m) = zone_policy p z (dns_rules rules) ++ zone_policies p m

unfoldable pub grant_policy : Str → List DnsRule → List Cnp
grant_policy ws [] = []
grant_policy ws (d ∷ dns) =
    cnp (codes "ws-dns-grant-" ++ ws) (match_on in_op (some (ws ∷ [])) ∷ []) (d ∷ dns) ∷ []

unfoldable pub grant_policies : Map (List Rule) → List Cnp
grant_policies [] = []
grant_policies ((ws, rules) ∷ m) = grant_policy ws (dns_rules rules) ++ grant_policies m

-- Render
unfoldable pub render : Input → List Cnp
render p =
    sort (λ c d. str_lt c.name d.name) (zone_policies p p.zone_rules ++ grant_policies p.grants)
