-- ===== src/Policy/Hosts/Collect.antt =====
-- The first loop of `HostIPs`: every pod's address under the key of each of its host rules.
use sandcastle.Prelude.{
  ◌≡◌, ◌≢◌, refl, sym, ap, subst, ◌∙◌, ◌↔◌, ◌⊎◌, inl, inr, true, false, List, [], ◌∷◌, Str, str_eq,
  str_eq→eq, str_eq_iff, In, In-append, In-keep, keep, arith, Bool-cases,
}
use sandcastle.Policy.Name.{valid_name}
use sandcastle.Policy.Name.Grammar.{valid_name-star}
use sandcastle.Policy.Rules.{
  Rule, Workspace, Input, host_kind, usable, valid_rule, effective, rules_at, zone_of,
}
use sandcastle.Policy.Hosts.{
  HostKey, IpSet, keys_of, ips_at, add_ip, rule_key, add_rules, collect, collected,
}
use sandcastle.Policy.Hosts.Sets.{In-add_ip, In-keys_of-add_ip, add_ip-IsMap, IsMap}
use sandcastle.Policy.Hosts.Merge.{IsDotted}

-- A pod of `ws` with the address has a rule with the key among its effective host rules.
pub record Holds (p : Input) (ws : List Workspace) (x : Str) (k : HostKey) : Type 0 where
  pub pod : Workspace
  pub running : In pod ws
  pub address : pod.ip ≡ x
  pub has_ip : pod.ip ≢ []
  pub rule : Rule
  pub granted : In rule (effective p pod.id host_kind)
  pub at_key : rule_key rule ≡ k

In-add_rules :
    (x : Str) (k : HostKey) (rs : List Rule) (ip : Str) (s : IpSet)
    → In x (ips_at k (add_rules rs ip s))
    → In x (ips_at k s) ⊎ ((ip ≡ x) × ((r : Rule) × In r rs × (rule_key r ≡ k)))
unfolding add_rules
In-add_rules x k [] ip s m = inl m
In-add_rules x k (r ∷ rs) ip s m = elim (In-add_rules x k rs ip (add_ip (rule_key r) ip s) m) [
  | inl n ↦ elim ((In-add_ip x k (rule_key r) ip s).0 n) [
    | inl o ↦ inl o
    | inr (e, f) ↦ inr (sym f, (r, inl refl, sym e))
  ]
  | inr (e, (q, n, f)) ↦ inr (e, (q, inr n, f))
]

add_rules-In_old :
    (x : Str) (k : HostKey) (rs : List Rule) (ip : Str) (s : IpSet)
    → In x (ips_at k s)
    → In x (ips_at k (add_rules rs ip s))
unfolding add_rules
add_rules-In_old x k [] ip s m = m
add_rules-In_old x k (r ∷ rs) ip s m =
    add_rules-In_old x k rs ip (add_ip (rule_key r) ip s)
      ((In-add_ip x k (rule_key r) ip s).1 (inl m))

add_rules-In_new :
    (r : Rule) (rs : List Rule) (ip : Str) (s : IpSet)
    → In r rs
    → In ip (ips_at (rule_key r) (add_rules rs ip s))
unfolding add_rules
add_rules-In_new r [] ip s m = elim m [ ]
add_rules-In_new r (q ∷ rs) ip s (inl e) =
    add_rules-In_old ip (rule_key r) rs ip (add_ip (rule_key q) ip s)
      ((In-add_ip ip (rule_key r) (rule_key q) ip s).1 (inr (ap rule_key e, refl)))
add_rules-In_new r (q ∷ rs) ip s (inr m) = add_rules-In_new r rs ip (add_ip (rule_key q) ip s) m

module _ (p : Input) where
  weaken :
      (x : Str) (k : HostKey) (w : Workspace) (ws : List Workspace)
      → Holds p ws x k
      → Holds p (w ∷ ws) x k
  weaken x k w ws h = record {
    pod = h.pod;
    running = inr h.running;
    address = h.address;
    has_ip = h.has_ip;
    rule = h.rule;
    granted = h.granted;
    at_key = h.at_key;
  }

  In-collect :
      (x : Str) (k : HostKey) (ws : List Workspace) (s : IpSet)
      → In x (ips_at k (collect p ws s))
      → In x (ips_at k s) ⊎ Holds p ws x k
  unfolding collect
  In-collect x k [] s m = inl m
  In-collect x k (w ∷ ws) s m = elim (Bool-cases (str_eq w.ip [])) [
    | inl e ↦ elim (In-collect x k ws s (rw e at m)) [
      | inl n ↦ inl n
      | inr h ↦ inr (weaken x k w ws h)
    ]
    | inr e ↦ elim (In-collect x k ws (add_rules (effective p w.id host_kind) w.ip s) (rw e at m)) [
      | inl n ↦ elim (In-add_rules x k (effective p w.id host_kind) w.ip s n) [
        | inl o ↦ inl o
        | inr (a, (r, g, f)) ↦ inr (record {
          pod = w;
          running = inl refl;
          address = a;
          has_ip = λ h. cc ((str_eq_iff w.ip []).1 h, e);
          rule = r;
          granted = g;
          at_key = f;
        })
      ]
      | inr h ↦ inr (weaken x k w ws h)
    ]
  ]

  collect-In_old :
      (x : Str) (k : HostKey) (ws : List Workspace) (s : IpSet)
      → In x (ips_at k s)
      → In x (ips_at k (collect p ws s))
  unfolding collect
  collect-In_old x k [] s m = m
  collect-In_old x k (w ∷ ws) s m = elim (Bool-cases (str_eq w.ip [])) [
    | inl e ↦ rw e (collect-In_old x k ws s m)
    | inr e ↦ rw e (
        collect-In_old x k ws (add_rules (effective p w.id host_kind) w.ip s)
          (add_rules-In_old x k (effective p w.id host_kind) w.ip s m))
  ]

  collect-In_new :
      (w : Workspace) (r : Rule) (ws : List Workspace) (s : IpSet)
      → In w ws
      → w.ip ≢ []
      → In r (effective p w.id host_kind)
      → In w.ip (ips_at (rule_key r) (collect p ws s))
  unfolding collect
  collect-In_new w r [] s m n g = elim m [ ]
  collect-In_new w r (v ∷ ws) s (inr m) n g = collect-In_new w r ws _ m n g
  collect-In_new w r (v ∷ ws) s (inl e) n g =
      let has : str_eq v.ip [] ≡ false = elim (Bool-cases (str_eq v.ip [])) [
        | inl f ↦ absurd (n (ap (λ (u : Workspace). u.ip) e ∙ str_eq→eq v.ip [] f))
        | inr f ↦ f
      ] in
      rw has (
        collect-In_old w.ip (rule_key r) ws (add_rules (effective p v.id host_kind) v.ip s) (
          subst (λ u. In w.ip (ips_at (rule_key r) (add_rules (effective p u.id host_kind) u.ip s)))
            e (add_rules-In_new r (effective p w.id host_kind) w.ip s g)))

  -- The first loop leaves exactly what the pods' own rules give.
  pub In-collected : (x : Str) (k : HostKey) → In x (ips_at k (collected p)) ↔ Holds p p.pods x k
  unfolding collected ips_at
  In-collected x k = (
    λ m. elim (In-collect x k p.pods [] m) [ inl f ↦ absurd f | inr h ↦ h ],
    λ h.
        subst (λ j. In x (ips_at j (collect p p.pods []))) h.at_key
          (subst (λ y. In y (ips_at (rule_key h.rule) (collect p p.pods []))) h.address
            (collect-In_new h.pod h.rule p.pods [] h.running h.has_ip h.granted)),
  )

  keys_of-add_rules :
      (k : HostKey) (rs : List Rule) (ip : Str) (s : IpSet)
      → In k (keys_of (add_rules rs ip s))
      → In k (keys_of s) ⊎ In ip (ips_at k (add_rules rs ip s))
  unfolding add_rules
  keys_of-add_rules k [] ip s m = inl m
  keys_of-add_rules k (r ∷ rs) ip s m =
      elim (keys_of-add_rules k rs ip (add_ip (rule_key r) ip s) m) [
        | inl n ↦ elim (In-keys_of-add_ip k (rule_key r) ip s n) [
          | inl o ↦ inl o
          | inr e ↦ inr (
              add_rules-In_old ip k rs ip (add_ip (rule_key r) ip s)
                ((In-add_ip ip k (rule_key r) ip s).1 (inr (e, refl))))
        ]
        | inr n ↦ inr n
      ]

  keys_of-collect :
      (k : HostKey) (ws : List Workspace) (s : IpSet)
      → In k (keys_of (collect p ws s))
      → In k (keys_of s) ⊎ ((x : Str) × In x (ips_at k (collect p ws s)))
  unfolding collect
  keys_of-collect k [] s m = inl m
  keys_of-collect k (w ∷ ws) s m = elim (Bool-cases (str_eq w.ip [])) [
    | inl e ↦ rw e (keys_of-collect k ws s (rw e at m))
    | inr e ↦ rw e (
        let rs = effective p w.id host_kind in
        elim (keys_of-collect k ws (add_rules rs w.ip s) (rw e at m)) [
          | inl n ↦ elim (keys_of-add_rules k rs w.ip s n) [
            | inl o ↦ inl o
            | inr h ↦ inr (w.ip, collect-In_old w.ip k ws (add_rules rs w.ip s) h)
          ]
          | inr h ↦ inr h
        ])
  ]

  -- A key of the map has an address.
  pub key-has_address :
      (k : HostKey) → In k (keys_of (collected p)) → (x : Str) × In x (ips_at k (collected p))
  unfolding collected
  key-has_address k m = elim (keys_of-collect k p.pods [] m) [ inl f ↦ absurd f | inr h ↦ h ]

  pub effective-usable :
      (ws kind : Str) (r : Rule) → In r (effective p ws kind) → usable kind r ≡ true
  unfolding effective
  effective-usable ws kind r m =
      elim (In-append r (keep (usable kind) (rules_at (zone_of p ws) p.zone_rules)) _ m) [
        | inl n ↦ (In-keep (usable kind) r _ n).1
        | inr n ↦ (In-keep (usable kind) r _ n).1
      ]

  pub effective-valid :
      (ws : Str) (r : Rule) → In r (effective p ws host_kind) → valid_name r.value ≡ true
  unfolding usable valid_rule
  effective-valid ws r m = ground (arith, effective-usable ws host_kind r m)

  -- So every key is a valid name.
  pub collected-valid : (k : HostKey) → In k (keys_of (collected p)) → valid_name k.host ≡ true
  collected-valid k m =
      let (x, n) = key-has_address k m in
      let h = (In-collected x k).0 n in
      subst (λ (j : HostKey). valid_name j.host ≡ true) h.at_key
        (effective-valid h.pod.id h.rule h.granted)

  pub collected-IsDotted : (k : HostKey) → In k (keys_of (collected p)) → IsDotted k
  collected-IsDotted k m suffix e = valid_name-star k.host suffix (collected-valid k m) e

add_rules-IsMap : (rs : List Rule) (ip : Str) (s : IpSet) → IsMap s → IsMap (add_rules rs ip s)
unfolding add_rules
add_rules-IsMap [] ip s h = h
add_rules-IsMap (r ∷ rs) ip s h =
    add_rules-IsMap rs ip (add_ip (rule_key r) ip s) (add_ip-IsMap (rule_key r) ip s h)

collect-IsMap : (p : Input) (ws : List Workspace) (s : IpSet) → IsMap s → IsMap (collect p ws s)
unfolding collect
collect-IsMap p [] s h = h
collect-IsMap p (w ∷ ws) s h = elim (Bool-cases (str_eq w.ip [])) [
  | inl e ↦ rw e (collect-IsMap p ws s h)
  | inr e ↦ rw e (
      collect-IsMap p ws (add_rules (effective p w.id host_kind) w.ip s)
        (add_rules-IsMap (effective p w.id host_kind) w.ip s h))
]

pub collected-IsMap : (p : Input) → IsMap (collected p)
unfolding collected
collected-IsMap p = collect-IsMap p p.pods [] (tt, tt)
