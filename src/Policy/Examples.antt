-- ===== src/Policy/Examples.antt =====
-- The policy theorems and functions at concrete inputs, some of them those of policy_test.go.
use sandcastle.Prelude.{
  ◌≡◌, refl, ◌≤◌, ◌↔◌, inl, inr, true, [], ◌∷◌, Str, codes, str_eq, str_lt, In, length,
}
use sandcastle.Prelude.Assoc.{get}
use sandcastle.Prelude.Int.{pos, int_eq}
use sandcastle.Prelude.Affix.{cut_char, has_suffix}
use sandcastle.Prelude.Sort.{sort}
use sandcastle.Policy.Name.{valid_name}
use sandcastle.Policy.Name.Grammar.{IsName, valid_name-IsName}
use sandcastle.Policy.Rules.{
  Rule, Workspace, Input, host_kind, dns_kind, valid_rule, zone_of, rules_at, usable, effective,
}
use sandcastle.Policy.Hosts.{
  HostKey, key_eq, keys_of, ips_at, add_member, add_ip, add_rules, collect, add_all, covered,
  spread, merge_key, merge, sorted, collected, host_ips,
}
use sandcastle.Policy.Hosts.Order.{IsRange, host_ips-order}
use sandcastle.Policy.Hosts.Access.{Permits, host_ips-Permits}

abbrev host_rule : Str → Rule
unfolding host_kind
host_rule v = record { kind = host_kind; value = v; port = pos 443 }

abbrev pod_at : Str → Str → Workspace
pod_at id ip = record { id = id; name = id; owner_id = []; ip = ip }

-- A wildcard for every workspace, and one host under it for the first alone.
abbrev sample : Input
unfolding codes host_kind
sample = record {
  default_zone = codes "z";
  zone_rules = (codes "z", host_rule (codes "*.git.io") ∷ []) ∷ [];
  assign = [];
  grants = (codes "a", host_rule (codes "api.git.io") ∷ []) ∷ [];
  pods = pod_at (codes "a") (codes "10.0.0.1") ∷ pod_at (codes "b") (codes "10.0.0.2") ∷ [];
}

abbrev star_key : HostKey
unfolding codes
star_key = record { host = codes "*.git.io"; port = pos 443 }

abbrev api_key : HostKey
unfolding codes
api_key = record { host = codes "api.git.io"; port = pos 443 }

sample_keys : keys_of (collected sample) ≡ star_key ∷ api_key ∷ []
unfolding codes collected collect add_rules add_ip add_member effective usable valid_rule valid_name
    zone_of rules_at get host_kind dns_kind str_eq int_eq key_eq
sample_keys = refl

sample_ips :
    host_ips (api_key ∷ star_key ∷ []) sample
    ≡ (star_key, codes "10.0.0.1" ∷ codes "10.0.0.2" ∷ [])
      ∷ (api_key, codes "10.0.0.1" ∷ codes "10.0.0.2" ∷ [])
      ∷ []
unfolding codes collected collect add_rules add_ip add_member effective usable valid_rule valid_name
    zone_of rules_at get host_kind dns_kind str_eq int_eq key_eq host_ips merge merge_key spread
    covered ips_at add_all sorted sort str_lt cut_char has_suffix
sample_ips = refl

forwards : IsRange (star_key ∷ api_key ∷ []) (collected sample)
forwards k = rw sample_keys (λ m. m, λ m. m)

swap_two : (k : HostKey) → In k (api_key ∷ star_key ∷ []) → In k (star_key ∷ api_key ∷ [])
swap_two k (inl e) = inr (inl e)
swap_two k (inr (inl e)) = inl e
swap_two k (inr (inr f)) = absurd f

swap_back : (k : HostKey) → In k (star_key ∷ api_key ∷ []) → In k (api_key ∷ star_key ∷ [])
swap_back k (inl e) = inr (inl e)
swap_back k (inr (inl e)) = inl e
swap_back k (inr (inr f)) = absurd f

backwards : IsRange (api_key ∷ star_key ∷ []) (collected sample)
backwards k = rw sample_keys (swap_two k, swap_back k)

host_ips-order_example :
    host_ips (star_key ∷ api_key ∷ []) sample ≡ host_ips (api_key ∷ star_key ∷ []) sample
host_ips-order_example =
    host_ips-order sample (star_key ∷ api_key ∷ []) (api_key ∷ star_key ∷ []) forwards backwards

host_ips-Permits_example :
    In (codes "10.0.0.2") (ips_at api_key (host_ips (api_key ∷ star_key ∷ []) sample))
    ↔ Permits sample (codes "10.0.0.2") (codes "api.git.io") (pos 443)
unfolding codes
host_ips-Permits_example =
    host_ips-Permits sample (api_key ∷ star_key ∷ []) (codes "api.git.io") (pos 443) api_key
      (codes "10.0.0.2") backwards
      (record {
        is_key = rw sample_keys (inr (inl refl));
        on_port = refl;
        fits = inl refl;
        best = inl refl;
      })

valid_name-IsName_example :
    (valid_name (codes "*.git.io") ≡ true)
    ↔ ((length (codes "*.git.io") ≤ 253) × IsName (codes "*.git.io"))
valid_name-IsName_example = valid_name-IsName (codes "*.git.io")
