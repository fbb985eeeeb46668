-- ===== src/Policy/Hosts/Keys.antt =====
-- The keys of `HostIPs` of admin/internal/policy/policy.go.
use sandcastle.Prelude.{
  ◌≡◌, ◌⊎◌, inl, inr, refl, ap, ◌∙◌, subst, true, ◌&&◌, ◌||◌, List, [], ◌∷◌, str_eq, In, arith,
  &&_split, Bool-cases,
}
use sandcastle.Prelude.Int.{pos, int_eq, int_eq_iff}
use sandcastle.Policy.Rules.{Rule, Input, host_kind, valid_rule, usable}
use sandcastle.Policy.Name.{valid_name}
use sandcastle.Policy.Name.Plain.{NoColon, valid_name-NoColon}
use sandcastle.Policy.Hosts.{HostKey, IpSet, keys_of, rule_key, merge, sorted, collected, host_ips}
use sandcastle.Policy.Hosts.Merge.{keys_of-merge}
use sandcastle.Policy.Hosts.Collect.{In-collected, key-has_address, effective-usable}

keys_of-sorted : (s : IpSet) → keys_of (sorted s) ≡ keys_of s
unfolding sorted
keys_of-sorted [] = refl
keys_of-sorted ((k, ips) ∷ s) = ap (λ ks. k ∷ ks) (keys_of-sorted s)

pub keys_of-host_ips :
    (p : Input) (order : List HostKey) → keys_of (host_ips order p) ≡ keys_of (collected p)
unfolding host_ips
keys_of-host_ips p order =
    keys_of-sorted (merge order (collected p)) ∙ keys_of-merge order (collected p)

-- A key on port 443 or 80, whose host has no colon.
pub record IsHostKey (k : HostKey) : Type 0 where
  pub on_port : (k.port ≡ pos 443) ⊎ (k.port ≡ pos 80)
  pub plain : NoColon k.host

usable-IsHostKey : (r : Rule) → usable host_kind r ≡ true → IsHostKey (rule_key r)
unfolding usable valid_rule
usable-IsHostKey r h =
    let (a, b) = &&_split {a = str_eq r.kind host_kind} {b = valid_rule r} h in
    let c : ((int_eq r.port (pos 443) || int_eq r.port (pos 80)) && valid_name r.value) ≡ true =
      rw a at b in
    let (d, e) =
      &&_split {a = int_eq r.port (pos 443) || int_eq r.port (pos 80)} {b = valid_name r.value} c in
    record {
      on_port = elim (Bool-cases (int_eq r.port (pos 443))) [
        | inl x ↦ inl ((int_eq_iff r.port (pos 443)).0 x)
        | inr x ↦ inr ((int_eq_iff r.port (pos 80)).0 (ground arith))
      ];
      plain = valid_name-NoColon r.value e;
    }

pub key-IsHostKey : (p : Input) (k : HostKey) → In k (keys_of (collected p)) → IsHostKey k
key-IsHostKey p k m =
    let (x, n) = key-has_address p k m in
    let h = (In-collected p x k).0 n in
    subst IsHostKey h.at_key
      (usable-IsHostKey h.rule (effective-usable p h.pod.id host_kind h.rule h.granted))
