-- ===== src/Cilium/Rendered.antt =====
-- The names and labels of the policies that `Render` of admin/internal/cilium/cilium.go makes.
use mathlib.Core.List.{append_cancel_left}
use sandcastle.Prelude.{
  ◌≡◌, ◌≢◌, refl, sym, ap, subst, ◌∙◌, ◌⊎◌, inl, inr, true, Option, none, some, List, [], ◌∷◌, ◌++◌,
  In, In-append, Str, str_lt, str_eq, eq→str_eq, codes,
}
use sandcastle.Prelude.Assoc.{Map, get, get-of-In}
use sandcastle.Prelude.Distinct.{Unique}
use sandcastle.Prelude.Sort.{In-sort}
use sandcastle.Policy.Rules.{Rule, Input}
use sandcastle.Cilium.Render.{
  Match, DnsRule, Cnp, zone_selector, cnp, zone_policy, zone_policies, grant_policy, grant_policies,
  dns_rules, render,
}
use sandcastle.Cilium.Apply.{is_owned}
use sandcastle.Cilium.Selected.{IsInput}

-- A policy with the label, made by `f` from an entry of a map, under a name that tells the key.
pub record Made (pre : Str) (f : Str → List DnsRule → List Cnp) (m : Map (List Rule)) (c : Cnp)
    : Type 0 where
  pub key : Str
  pub rules : List Rule
  pub entry : In (key, rules) m
  pub made : In c (f key (dns_rules rules))
  pub named : c.name ≡ pre ++ key
  pub owned : is_owned c ≡ true

later_entry :
    {pre : Str} {f : Str → List DnsRule → List Cnp} {e : Str × List Rule} {m : Map (List Rule)}
    {c : Cnp}
    → Made pre f m c
    → Made pre f (e ∷ m) c
later_entry r = record {
  key = r.key;
  rules = r.rules;
  entry = inr r.entry;
  made = r.made;
  named = r.named;
  owned = r.owned;
}

abbrev zone_prefix : Str
zone_prefix = codes "ws-dns-zone-"

abbrev grant_prefix : Str
grant_prefix = codes "ws-dns-grant-"

cnp-is_owned :
    (name : Str) (expr : List Match) (dns : List DnsRule) → is_owned (cnp name expr dns) ≡ true
unfolding cnp is_owned get codes str_eq
cnp-is_owned name expr dns = refl

-- A map's entry makes at most one policy, of its name.
abbrev IsOne : Str → Cnp → List Cnp → Type 0
IsOne name c l = (c.name ≡ name) × (is_owned c ≡ true) × ((e : Cnp) → In e l → e ≡ c)

cnp-IsOne :
    (name : Str) (expr : List Match) (dns : List DnsRule) (c : Cnp)
    → In c (cnp name expr dns ∷ [])
    → IsOne name c (cnp name expr dns ∷ [])
unfolding cnp
cnp-IsOne name expr dns c (inl q) = (
  ap (λ (x : Cnp). x.name) q,
  ap is_owned q ∙ cnp-is_owned name expr dns,
  λ e m. elim m [ inl k ↦ k ∙ sym q | inr f ↦ absurd f ],
)
cnp-IsOne name expr dns c (inr f) = absurd f

zone_policy-IsOne :
    (p : Input) (z : Str) (dns : List DnsRule) (c : Cnp)
    → In c (zone_policy p z dns)
    → IsOne (zone_prefix ++ z) c (zone_policy p z dns)
unfolding zone_policy
zone_policy-IsOne p z [] c m = absurd m
zone_policy-IsOne p z (d ∷ dns) c m = go (zone_selector p z) m
  where
    of_selector : Option (List Match) → List Cnp
    of_selector o = elim o [
      | none ↦ []
      | some expr ↦ cnp (codes "ws-dns-zone-" ++ z) expr (d ∷ dns) ∷ []
    ]

    go :
        (o : Option (List Match))
        → In c (of_selector o)
        → IsOne (zone_prefix ++ z) c (of_selector o)
    go none m = absurd m
    go (some expr) m = cnp-IsOne (zone_prefix ++ z) expr (d ∷ dns) c m

grant_policy-IsOne :
    (ws : Str) (dns : List DnsRule) (c : Cnp)
    → In c (grant_policy ws dns)
    → IsOne (grant_prefix ++ ws) c (grant_policy ws dns)
unfolding grant_policy
grant_policy-IsOne ws [] c m = absurd m
grant_policy-IsOne ws (d ∷ dns) c m = cnp-IsOne (grant_prefix ++ ws) _ (d ∷ dns) c m

zone_policies-Made :
    (p : Input) (m : Map (List Rule)) (c : Cnp)
    → In c (zone_policies p m)
    → Made zone_prefix (zone_policy p) m c
unfolding zone_policies
zone_policies-Made p [] c h = absurd h
zone_policies-Made p ((z, rules) ∷ m) c h =
    elim (In-append c (zone_policy p z (dns_rules rules)) (zone_policies p m) h) [
      | inl i ↦
          let (n, o, u) = zone_policy-IsOne p z (dns_rules rules) c i in
          record { key = z; rules = rules; entry = inl refl; made = i; named = n; owned = o }
      | inr i ↦ later_entry (zone_policies-Made p m c i)
    ]

grant_policies-Made :
    (m : Map (List Rule)) (c : Cnp) → In c (grant_policies m) → Made grant_prefix grant_policy m c
unfolding grant_policies
grant_policies-Made [] c h = absurd h
grant_policies-Made ((ws, rules) ∷ m) c h =
    elim (In-append c (grant_policy ws (dns_rules rules)) (grant_policies m) h) [
      | inl i ↦
          let (n, o, u) = grant_policy-IsOne ws (dns_rules rules) c i in
          record { key = ws; rules = rules; entry = inl refl; made = i; named = n; owned = o }
      | inr i ↦ later_entry (grant_policies-Made m c i)
    ]

-- Two policies of one map with one name are one.
Made-same :
    (pre : Str) (f : Str → List DnsRule → List Cnp) (m : Map (List Rule)) (c e : Cnp)
    → Unique (λ x. x.0) m
    → ((k : Str) (dns : List DnsRule) (a : Cnp)
        → In a (f k dns)
        → (b : Cnp) → In b (f k dns)
        → b ≡ a)
    → Made pre f m c
    → Made pre f m e
    → e.name ≡ c.name
    → e ≡ c
Made-same pre f m c e u one a b q =
    let k : b.key ≡ a.key = append_cancel_left pre b.key a.key (sym b.named ∙ q ∙ a.named) in
    let g = get-of-In a.key a.rules m u a.entry in
    let h = get-of-In b.key b.rules m u b.entry in
    let r : b.rules ≡ a.rules =
      (let w : some b.rules ≡ some a.rules = sym h ∙ ap (λ x. get x m) k ∙ g in cc) in
    one a.key (dns_rules a.rules) c a.made e (
      subst (λ x. In e (f x (dns_rules a.rules))) k
        (subst (λ x. In e (f b.key (dns_rules x))) r b.made))

-- A zone's policy and a grant's never share a name.
prefixes-ne : (z ws : Str) → zone_prefix ++ z ≢ grant_prefix ++ ws
unfolding codes
prefixes-ne z ws e =
    let k = eq→str_eq (zone_prefix ++ z) (grant_prefix ++ ws) e in absurd (unfold str_eq in cc)

module _ (p : Input) where
  in_render :
      (c : Cnp)
      → In c (render p)
      → Made zone_prefix (zone_policy p) p.zone_rules c ⊎ Made grant_prefix grant_policy p.grants c
  unfolding render
  in_render c m =
      elim (In-append c (zone_policies p p.zone_rules) (grant_policies p.grants)
        ((In-sort (λ a b. str_lt a.name b.name) c _).0 m)) [
          | inl j ↦ inl (zone_policies-Made p p.zone_rules c j)
          | inr j ↦ inr (grant_policies-Made p.grants c j)
        ]

  pub render-is_owned : (c : Cnp) → In c (render p) → is_owned c ≡ true
  render-is_owned c m = elim (in_render c m) [ inl r ↦ r.owned | inr r ↦ r.owned ]

  pub render_distinct :
      (c e : Cnp) → IsInput p → In c (render p) → In e (render p) → e.name ≡ c.name → e ≡ c
  render_distinct c e ok m n q = elim (in_render c m) [
    | inl r ↦ elim (in_render e n) [
      | inl s ↦
          Made-same zone_prefix (zone_policy p) p.zone_rules c e ok.zone_rules
            (λ k dns a i b j. (zone_policy-IsOne p k dns a i).2 b j) r s q
      | inr s ↦ absurd (prefixes-ne r.key s.key (sym r.named ∙ sym q ∙ s.named))
    ]
    | inr r ↦ elim (in_render e n) [
      | inl s ↦ absurd (prefixes-ne s.key r.key (sym s.named ∙ q ∙ r.named))
      | inr s ↦
          Made-same grant_prefix grant_policy p.grants c e ok.grants
            (λ k dns a i b j. (grant_policy-IsOne k dns a i).2 b j) r s q
    ]
  ]
