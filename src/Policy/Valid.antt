-- ===== src/Policy/Valid.antt =====
-- What `ValidRule` of admin/internal/policy/policy.go accepts, for each kind of rule.
use sandcastle.Prelude.{
  ◌≤◌, length, ◌≡◌, ◌↔◌, ◌⊎◌, inl, inr, refl, ap, ◌∙◌, true, false, &&_split, codes, str_eq,
  str_eq→eq, eq→str_eq, Bool-cases, arith,
}
use sandcastle.Prelude.Int.{pos, int_eq, int_eq_iff}
use sandcastle.Policy.Name.{valid_name}
use sandcastle.Policy.Name.Grammar.{IsName, valid_name-IsName}
use sandcastle.Policy.Rules.{Rule, host_kind, dns_kind, valid_rule, usable}

-- A rule on a host: a name of the grammar, on port 443 or 80.
pub record IsHostRule (r : Rule) : Type 0 where
  pub kind : r.kind ≡ host_kind
  pub on_port : (r.port ≡ pos 443) ⊎ (r.port ≡ pos 80)
  pub named : (length r.value ≤ 253) × IsName r.value

-- A rule on a DNS name: a name of the grammar, without a port.
pub record IsDnsRule (r : Rule) : Type 0 where
  pub kind : r.kind ≡ dns_kind
  pub no_port : r.port ≡ pos 0
  pub named : (length r.value ≤ 253) × IsName r.value

dns-ne_host : str_eq dns_kind host_kind ≡ false
unfolding dns_kind host_kind codes str_eq
dns-ne_host = refl

pub usable-IsHostRule : (r : Rule) → (usable host_kind r ≡ true) ↔ IsHostRule r
unfolding usable valid_rule
usable-IsHostRule r = (
  λ h.
      let (k, v) = &&_split {a = str_eq r.kind host_kind} h in
      let (p, n) = &&_split {b = valid_name r.value} (rw k at v) in
      record {
        kind = str_eq→eq r.kind host_kind k;
        on_port = elim (Bool-cases (int_eq r.port (pos 443))) [
          | inl e ↦ inl ((int_eq_iff r.port (pos 443)).0 e)
          | inr e ↦ inr ((int_eq_iff r.port (pos 80)).0 (ground arith))
        ];
        named = (valid_name-IsName r.value).0 n;
      },
  λ h.
      let k = eq→str_eq r.kind host_kind h.kind in
      let n = (valid_name-IsName r.value).1 h.named in
      rw (k, n)
        (elim h.on_port [
          | inl e ↦ let f = (int_eq_iff r.port (pos 443)).1 e in ground arith
          | inr e ↦ let f = (int_eq_iff r.port (pos 80)).1 e in ground arith
        ]),
)

pub usable-IsDnsRule : (r : Rule) → (usable dns_kind r ≡ true) ↔ IsDnsRule r
unfolding usable valid_rule
usable-IsDnsRule r = (
  λ h.
      let (k, v) = &&_split {a = str_eq r.kind dns_kind} h in
      let kind = str_eq→eq r.kind dns_kind k in
      let other : str_eq r.kind host_kind ≡ false =
        ap (λ s. str_eq s host_kind) kind ∙ dns-ne_host in
      let (p, n) = &&_split {a = int_eq r.port (pos 0)} (rw (other, k) at v) in
      record {
        kind = kind;
        no_port = (int_eq_iff r.port (pos 0)).0 p;
        named = (valid_name-IsName r.value).0 n;
      },
  λ h.
      let k = eq→str_eq r.kind dns_kind h.kind in
      let other : str_eq r.kind host_kind ≡ false =
        ap (λ s. str_eq s host_kind) h.kind ∙ dns-ne_host in
      rw (other, k, (int_eq_iff r.port (pos 0)).1 h.no_port, (valid_name-IsName r.value).1 h.named)
        refl,
)
