-- ===== src/Xds/Admits.antt =====
-- What the virtual hosts of admin/internal/xds/build.go say to Envoy: their domains, and the
-- addresses that the role-based access control filter lets through.
use sandcastle.Prelude.{
  ℕ, ◌≡◌, ◌↔◌, inl, inr, refl, sym, subst, Bool, true, false, not, ◌&&◌, ◌||◌, Option, none, some,
  List, [], ◌∷◌, ◌++◌, Str, codes, str_eq, map, In, Bool-cases, if◌then◌else◌,
}
use sandcastle.Policy.Hosts.{HostKey, ips_at}
use sandcastle.Xds.Json.{
  Json, text, int, flag, list, object, Items, no_items, item, items, Fields, no_fields, field,
  fields, value_at, at, typed,
}
use sandcastle.Xds.Routes.{
  Params, principal, rbac_per_route, per_route, tls_vhost, http_vhost, deny_vhost, is_tls, vhost_of,
  hash_name,
}

unfoldable texts_one : Json → List Str → List Str
texts_one (text s) ss = s ∷ ss
texts_one (int n) ss = ss
texts_one (flag b) ss = ss
texts_one (list vs) ss = ss
texts_one (object fs) ss = ss

unfoldable texts : Items → List Str
unfolding texts_one
texts no_items = []
texts (item v vs) = texts_one v (texts vs)

unfoldable strings : Option Json → List Str
unfolding texts
strings (some (list vs)) = texts vs
strings _ = []

-- The domains of a virtual host.
unfoldable pub domains : Json → List Str
unfolding strings at
domains v = strings (at (codes "domains") (some v))

-- Whether an address lies in the range of an address and a number of leading bits, as Envoy reads
-- its CidrRange; all 32 bits leave the IPv4 address alone.
abbrev pub InRange : Type 0
InRange = Str → ℕ → Str → Bool

pub record RangeLaws (in_range : InRange) : Type 0 where
  pub exact : (a x : Str) → (in_range a 32 x ≡ true) ↔ (a ≡ x)

abbrev any_true : Option Json → Bool
any_true (some (flag b)) = b
any_true _ = false

abbrev is_text : Str → Option Json → Bool
is_text t (some (text s)) = str_eq s t
is_text t _ = false

-- One of a policy's permissions: `any` is the one that the code writes.
unfoldable permits_any : Items → Bool
permits_any no_items = false
permits_any (item v vs) = any_true (at (codes "any") (some v)) || permits_any vs

unfoldable permissions_hold : Option Json → Bool
unfolding permits_any
permissions_hold (some (list vs)) = permits_any vs
permissions_hold _ = false

-- A policy holds for the requests that a permission and a principal fit; an ALLOW admits where a
-- policy holds, a DENY where none does. The rules that a virtual host has stand in place of the
-- listener's, which admit nothing.
module _ (in_range : InRange) (x : Str) where
  unfoldable in_cidr : Option Json → Option Json → Bool
  in_cidr (some (text a)) (some (int n)) = in_range a n x
  in_cidr _ _ = false

  unfoldable principal_fits : Json → Bool
  unfolding in_cidr at
  principal_fits v =
      in_cidr (at (codes "address_prefix") (at (codes "direct_remote_ip") (some v)))
        (at (codes "prefix_len") (at (codes "direct_remote_ip") (some v)))

  unfoldable some_fits : Items → Bool
  unfolding principal_fits
  some_fits no_items = false
  some_fits (item v vs) = principal_fits v || some_fits vs

  unfoldable principals_fit : Option Json → Bool
  unfolding some_fits
  principals_fit (some (list vs)) = some_fits vs
  principals_fit _ = false

  unfoldable some_policy : Fields → Bool
  unfolding permissions_hold principals_fit at
  some_policy no_fields = false
  some_policy (field name v fs) =
      (permissions_hold (at (codes "permissions") (some v))
        && principals_fit (at (codes "principals") (some v)))
      || some_policy fs

  unfoldable policy_holds : Option Json → Bool
  unfolding some_policy
  policy_holds (some (object fs)) = some_policy fs
  policy_holds _ = false

  unfoldable decides : Option Json → Bool
  unfolding policy_holds at
  decides rules =
      (is_text (codes "ALLOW") (at (codes "action") rules)
        && policy_holds (at (codes "policies") rules))
      || (is_text (codes "DENY") (at (codes "action") rules)
          && not (policy_holds (at (codes "policies") rules)))

  unfoldable is_some : Option Json → Bool
  is_some none = false
  is_some (some v) = true

  unfoldable first : Option Json → Option Json
  first (some (list (item v vs))) = some v
  first _ = none

  -- The access control of a virtual host lets the address through, and its first route forwards.
  unfoldable pub admits : Json → Bool
  unfolding decides at is_some first
  admits v =
      is_some (at (codes "route") (first (at (codes "routes") (some v))))
      && (is_text (codes "type.googleapis.com/envoy.extensions.filters.http.rbac.v3.RBACPerRoute") (
            at (codes "@type") (
              at (codes "envoy.filters.http.rbac") (at (codes "typed_per_filter_config") (some v))))
          && decides (
              at (codes "rules") (
                at (codes "rbac") (
                  at (codes "envoy.filters.http.rbac")
                    (at (codes "typed_per_filter_config") (some v))))))

  module _ (laws : RangeLaws in_range) where
    some_fits-principal :
        (ips : List Str) → (some_fits (items (map principal ips)) ≡ true) ↔ In x ips
    unfolding some_fits principal_fits in_cidr items principal fields value_at codes str_eq
    some_fits-principal [] = (λ h. absurd (cc), λ m. absurd m)
    some_fits-principal (ip ∷ ips) =
        let rest = some_fits-principal ips in
        let one = laws.exact ip x in
        (
          λ h. elim (Bool-cases (in_range ip 32 x)) [
            | inl e ↦ inl (sym (one.0 e))
            | inr e ↦ inr (rest.0 (rw e at h))
          ],
          λ m. elim m [
            | inl q ↦ rw (one.1 (sym q)) refl
            | inr n ↦ elim (Bool-cases (in_range ip 32 x)) [
              | inl e ↦ rw e refl
              | inr e ↦ rw e (rest.1 n)
            ]
          ],
        )

-- The domains of a key.
unfoldable pub domains_of_key : HostKey → List Str
domains_of_key k =
    if is_tls k then (k.host ++ codes ":443") ∷ [] else k.host ∷ (k.host ++ codes ":80") ∷ []

module _ (sha256 : List ℕ → List ℕ) (p : Params) where
  -- The filter of a key's virtual host fits an address exactly where the key has it.
  module _ (in_range : InRange) (x : Str) where
    admits-fits :
        (k : HostKey)
        → admits in_range x (vhost_of sha256 p k)
          ≡ some_fits in_range x (items (map principal (ips_at k p.hosts)))
    unfolding vhost_of admits tls_vhost http_vhost per_route rbac_per_route typed fields value_at
        codes str_eq items decides policy_holds some_policy permissions_hold permits_any
        principals_fit first is_some
    admits-fits k =
        go (is_tls k) (some_fits in_range x (items (map principal (ips_at k p.hosts)))) refl
      where
        go :
            (b c : Bool)
            → some_fits in_range x (items (map principal (ips_at k p.hosts))) ≡ c
            → admits in_range x (
                if b
                then tls_vhost p.tunnel_max
                    (hash_name sha256 k (ips_at k p.hosts))
                    k
                    (ips_at k p.hosts)
                else http_vhost (hash_name sha256 k (ips_at k p.hosts)) k (ips_at k p.hosts))
              ≡ c
        go true true e = rw e refl
        go true false e = rw e refl
        go false true e = rw e refl
        go false false e = rw e refl

    pub admits-vhost_of :
        (k : HostKey)
        → RangeLaws in_range
        → (admits in_range x (vhost_of sha256 p k) ≡ true) ↔ In x (ips_at k p.hosts)
    admits-vhost_of k laws =
        subst (λ b. (b ≡ true) ↔ In x (ips_at k p.hosts)) (sym (admits-fits k))
          (some_fits-principal in_range x laws (ips_at k p.hosts))

  pub domains-vhost_of : (k : HostKey) → domains (vhost_of sha256 p k) ≡ domains_of_key k
  unfolding vhost_of domains tls_vhost http_vhost fields value_at items domains_of_key
  domains-vhost_of k = go (is_tls k)
    where
      go :
          (b : Bool)
          → domains (
              if b
              then tls_vhost p.tunnel_max
                  (hash_name sha256 k (ips_at k p.hosts))
                  k
                  (ips_at k p.hosts)
              else http_vhost (hash_name sha256 k (ips_at k p.hosts)) k (ips_at k p.hosts))
            ≡ (if b then (k.host ++ codes ":443") ∷ [] else k.host ∷ (k.host ++ codes ":80") ∷ [])
      go true = unfold codes str_eq in refl
      go false = unfold codes str_eq in refl

pub domains-deny_vhost : domains deny_vhost ≡ codes "*" ∷ []
unfolding domains deny_vhost fields value_at items codes str_eq
domains-deny_vhost = refl
