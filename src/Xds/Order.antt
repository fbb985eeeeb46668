-- ===== src/Xds/Order.antt =====
-- `Build` of admin/internal/xds/build.go ranges over a Go map, in any order, and sorts its keys.
use sandcastle.Prelude.{
  ◌≡◌, ◌⊎◌, ◌↔◌, inl, inr, refl, sym, ap, ◌∙◌, ℕ, true, false, Option, List, [], ◌∷◌, Str,
  Bool-cases, In, str_eq, str_lt, str_eq_refl, str_eq→eq, str_lt_irrefl, str_lt_trans, str_lt_total,
  arith, map, eq→str_eq,
}
use sandcastle.Prelude.Int.{ℤ, pos, negsuc, int_lt}
use sandcastle.Prelude.Sort.{IsDistinct, sort, sort_unique}
use sandcastle.Policy.Hosts.{HostKey, IpSet, keys_of, ips_at}
use sandcastle.Xds.Json.{Json}
use sandcastle.Xds.Routes.{Params, vhost_of, clusters_of, listeners_of}
use sandcastle.Xds.Build.{
  key_lt, sorted_keys, Kind, all_listeners, all_clusters, vhosts, route_config, build,
}

int_lt_irrefl : (a : ℤ) → int_lt a a ≡ false
unfolding int_lt
int_lt_irrefl (pos n) = ground arith
int_lt_irrefl (negsuc n) = ground arith

int_lt_trans : (a b c : ℤ) → int_lt a b ≡ true → int_lt b c ≡ true → int_lt a c ≡ true
unfolding int_lt
int_lt_trans (pos a) (pos b) (pos c) h k = ground arith
int_lt_trans (negsuc a) (pos b) (pos c) h k = ground arith
int_lt_trans (negsuc a) (negsuc b) (pos c) h k = ground arith
int_lt_trans (negsuc a) (negsuc b) (negsuc c) h k = ground arith
int_lt_trans (pos a) (negsuc b) c h k = absurd (ground arith)
int_lt_trans a (pos b) (negsuc c) h k = absurd (ground arith)

int_lt_total : (a b : ℤ) → int_lt a b ≡ false → int_lt b a ≡ false → a ≡ b
unfolding int_lt
int_lt_total (pos a) (pos b) h k = ap pos (ground arith)
int_lt_total (pos a) (negsuc b) h k = absurd (ground arith)
int_lt_total (negsuc a) (pos b) h k = absurd (ground arith)
int_lt_total (negsuc a) (negsuc b) h k = ap negsuc (ground arith)

key_lt_irrefl : (k : HostKey) → key_lt k k ≡ false
unfolding key_lt
key_lt_irrefl k = rw (str_eq_refl k.host) (int_lt_irrefl k.port)

key-eq : (j k : HostKey) → j.host ≡ k.host → j.port ≡ k.port → j ≡ k
key-eq j k e f = ground arith

str_lt_self : (s t : Str) → s ≡ t → str_lt s t ≡ false
str_lt_self s t e = ap (λ x. str_lt x t) e ∙ str_lt_irrefl t

-- One key below another, by the host or, on one host, by the port.
key_lt_iff :
    (j k : HostKey)
    → (key_lt j k ≡ true)
      ↔ ((str_lt j.host k.host ≡ true) ⊎ ((j.host ≡ k.host) × (int_lt j.port k.port ≡ true)))
unfolding key_lt
key_lt_iff j k = elim (Bool-cases (str_eq j.host k.host)) [
  | inl e ↦ rw e (
    λ h. inr (str_eq→eq j.host k.host e, h),
    λ h. elim h [
      | inl l ↦ absurd (let n = str_lt_self j.host k.host (str_eq→eq j.host k.host e) in cc)
      | inr (q, l) ↦ l
    ],
  )
  | inr e ↦ rw e (
    λ h. inl h,
    λ h. elim h [ inl l ↦ l | inr (q, l) ↦ absurd (let n = eq→str_eq j.host k.host q in cc) ],
  )
]

key_lt_trans : (a b c : HostKey) → key_lt a b ≡ true → key_lt b c ≡ true → key_lt a c ≡ true
key_lt_trans a b c h k = (key_lt_iff a c).1 (both ((key_lt_iff a b).0 h) ((key_lt_iff b c).0 k))
  where
    both :
        ((str_lt a.host b.host ≡ true) ⊎ ((a.host ≡ b.host) × (int_lt a.port b.port ≡ true)))
        → ((str_lt b.host c.host ≡ true) ⊎ ((b.host ≡ c.host) × (int_lt b.port c.port ≡ true)))
        → (str_lt a.host c.host ≡ true) ⊎ ((a.host ≡ c.host) × (int_lt a.port c.port ≡ true))
    both (inl x) (inl y) = inl (str_lt_trans a.host b.host c.host x y)
    both (inl x) (inr (e, y)) = inl (ap (λ s. str_lt a.host s) (sym e) ∙ x)
    both (inr (e, x)) (inl y) = inl (ap (λ s. str_lt s c.host) e ∙ y)
    both (inr (e, x)) (inr (f, y)) = inr (e ∙ f, int_lt_trans a.port b.port c.port x y)

key_lt_total : (a b : HostKey) → key_lt a b ≡ false → key_lt b a ≡ false → a ≡ b
unfolding key_lt
key_lt_total a b h k = elim (Bool-cases (str_eq a.host b.host)) [
  | inl e ↦
      let q = str_eq→eq a.host b.host e in
      let f = eq→str_eq b.host a.host (sym q) in
      key-eq a b q (int_lt_total a.port b.port (rw e at h) (rw f at k))
  | inr e ↦
      let f : str_eq b.host a.host ≡ false = elim (Bool-cases (str_eq b.host a.host)) [
        | inl g ↦ absurd (let n = eq→str_eq a.host b.host (sym (str_eq→eq b.host a.host g)) in cc)
        | inr g ↦ g
      ] in
      absurd (
        let q = str_lt_total a.host b.host (rw e at h) (rw f at k) in
        let n = eq→str_eq a.host b.host q in cc)
]

-- Two maps with the same keys and, at each key, the same addresses.
pub record SameMap (s t : IpSet) : Type 0 where
  pub distinct_left : IsDistinct (keys_of s)
  pub distinct_right : IsDistinct (keys_of t)
  pub keys : (k : HostKey) → In k (keys_of s) ↔ In k (keys_of t)
  pub ips : (k : HostKey) → ips_at k s ≡ ips_at k t

module _ (sha256 : List ℕ → List ℕ) (p q : Params)
    (same_ips : (k : HostKey) → ips_at k p.hosts ≡ ips_at k q.hosts) where
  vhost_of_same :
      (k : HostKey) → p.tunnel_max ≡ q.tunnel_max → vhost_of sha256 p k ≡ vhost_of sha256 q k
  unfolding vhost_of
  vhost_of_same k t = rw (same_ips k, t) refl

  vhosts_same :
      p.tunnel_max ≡ q.tunnel_max
      → (ks : List HostKey) → map (vhost_of sha256 p) ks ≡ map (vhost_of sha256 q) ks
  vhosts_same t [] = refl
  vhosts_same t (k ∷ ks) = rw (vhost_of_same k t, vhosts_same t ks) refl

  clusters_same : (ks : List HostKey) → clusters_of sha256 p ks ≡ clusters_of sha256 q ks
  unfolding clusters_of
  clusters_same [] = refl
  clusters_same (k ∷ ks) = rw (same_ips k, clusters_same ks) refl

  listeners_same : (ks : List HostKey) → listeners_of sha256 p ks ≡ listeners_of sha256 q ks
  unfolding listeners_of
  listeners_same [] = refl
  listeners_same (k ∷ ks) = rw (same_ips k, listeners_same ks) refl

-- A build depends on the map alone, not on the order in which Go ranges over it.
pub build-order :
    {M : Type 0} (sha256 : List ℕ → List ℕ) (decode : Kind → Json → Option M) (url : Str)
    (tunnel : ℤ) (s t : IpSet)
    → SameMap s t
    → build sha256 decode (record { hosts = s; request_url = url; tunnel_max = tunnel })
      ≡ build sha256 decode (record { hosts = t; request_url = url; tunnel_max = tunnel })
unfolding build all_listeners all_clusters route_config vhosts sorted_keys
build-order {M} sha256 decode url tunnel s t same =
    let p : Params = record { hosts = s; request_url = url; tunnel_max = tunnel } in
    let q : Params = record { hosts = t; request_url = url; tunnel_max = tunnel } in
    let keys : sort key_lt (keys_of s) ≡ sort key_lt (keys_of t) =
      sort_unique key_lt key_lt_irrefl key_lt_trans key_lt_total (keys_of s) (keys_of t)
        same.distinct_left same.distinct_right same.keys in
    rw
      (
        keys,
        vhosts_same sha256 p q same.ips refl (sort key_lt (keys_of t)),
        clusters_same sha256 p q same.ips (sort key_lt (keys_of t)),
        listeners_same sha256 p q same.ips (sort key_lt (keys_of t)),
      )
      refl
