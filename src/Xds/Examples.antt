-- ===== src/Xds/Examples.antt =====
-- The theorems on Envoy's configuration for one pod with one host.
use sandcastle.Prelude.{
  ◌==◌, if◌then◌else◌, ℕ, ◌≡◌, ◌≢◌, inl, inr, refl, true, false, Option, some, List, [], ◌∷◌, codes,
  In, str_eq, ap, sym, ◌∙◌, Bool-cases,
}
use sandcastle.Prelude.Int.{pos, int_eq}
use sandcastle.Policy.Rules.{Input, host_kind}
use sandcastle.Policy.Hosts.{HostKey, IpSet, key_eq, ips_at}
use sandcastle.Policy.Hosts.Sets.{key_eq_iff}
use sandcastle.Go.Strings.{contains}
use sandcastle.Xds.Json.{Json}
use sandcastle.Xds.Routes.{Params}
use sandcastle.Xds.Build.{
  Kind, listener, cluster, route_config, Resources, built, build, decode_all, cons_decoded,
  assemble, all_listeners, all_clusters,
}
use sandcastle.Xds.Admits.{InRange}
use sandcastle.Xds.Stable.{build-same_proxy}
use sandcastle.Xds.Order.{SameMap, build-order}

abbrev sample : Input
unfolding codes host_kind
sample = record {
  default_zone = codes "z";
  zone_rules =
      (codes "z", (record { kind = host_kind; value = codes "git.io"; port = pos 443 }) ∷ []) ∷ [];
  assign = [];
  grants = [];
  pods = (record { id = codes "a"; name = []; owner_id = []; ip = codes "10.0.0.1" }) ∷ [];
}

abbrev git_key : HostKey
unfolding codes
git_key = record { host = codes "git.io"; port = pos 443 }

abbrev sha256 : List ℕ → List ℕ
sha256 s = s

abbrev params : IpSet → Params
params s = record { hosts = s; request_url = codes "http://admin/r"; tunnel_max = pos 3600 }

-- Ranges of 32 bits; a shorter one is taken to hold every address.
abbrev in_range : InRange
in_range a n x = if n == 32 then str_eq a x else true

abbrev http_key : HostKey
unfolding codes
http_key = record { host = codes "git.io"; port = pos 80 }

abbrev one_way : IpSet
one_way = (git_key, codes "10.0.0.1" ∷ []) ∷ (http_key, codes "10.0.0.2" ∷ []) ∷ []

abbrev other_way : IpSet
other_way = (http_key, codes "10.0.0.2" ∷ []) ∷ (git_key, codes "10.0.0.1" ∷ []) ∷ []

keys-ne : git_key ≢ http_key
unfolding git_key http_key int_eq
keys-ne e = let p : false ≡ true = ap (λ (k : HostKey). int_eq k.port (pos 80)) e in absurd (cc)

ips_either : (k : HostKey) → ips_at k one_way ≡ ips_at k other_way
unfolding ips_at
ips_either k = elim (Bool-cases (key_eq git_key k)) [
  | inr e ↦ rw e refl
  | inl e ↦ elim (Bool-cases (key_eq http_key k)) [
    | inr f ↦ rw f refl
    | inl f ↦ absurd (keys-ne ((key_eq_iff git_key k).0 e ∙ sym ((key_eq_iff http_key k).0 f)))
  ]
]

swap : (j l k : HostKey) → In k (j ∷ l ∷ []) → In k (l ∷ j ∷ [])
swap j l k (inl e) = inr (inl e)
swap j l k (inr (inl e)) = inl e
swap j l k (inr (inr f)) = absurd f

either_way : SameMap one_way other_way
either_way = record {
  distinct_left = ((keys-ne, tt), (tt, tt));
  distinct_right = (((λ e. keys-ne (sym e)), tt), (tt, tt));
  keys = λ k. (swap git_key http_key k, swap http_key git_key k);
  ips = ips_either;
}

abbrev accept : Kind → Json → Option Json
accept kind v = some v

build-order_example : build sha256 accept (params one_way) ≡ build sha256 accept (params other_way)
build-order_example =
    build-order sha256 accept (codes "http://admin/r") (pos 3600) one_way other_way either_way

-- What the builds of two maps make.
abbrev made : IpSet → Resources Json
made s = record {
  listeners = all_listeners sha256 (params s);
  clusters = all_clusters sha256 (params s);
  routes = route_config sha256 (params s) ∷ [];
}

decode_all-accept : (kind : Kind) (vs : List Json) → decode_all (accept kind) vs ≡ some vs
unfolding decode_all cons_decoded
decode_all-accept kind [] = refl
decode_all-accept kind (v ∷ vs) = rw (decode_all-accept kind vs) refl

no_percent : contains b'%' (codes "http://admin/r") ≡ false
unfolding contains codes
no_percent = refl

builds : (s : IpSet) → build sha256 accept (params s) ≡ built (made s)
unfolding build assemble
builds s =
    rw
      (
        no_percent,
        decode_all-accept listener (all_listeners sha256 (params s)),
        decode_all-accept cluster (all_clusters sha256 (params s)),
      )
      refl

build-same_proxy_example :
    (m : Json) × (xs : List Json) × (ys : List Json) × ((made one_way).listeners ≡ m ∷ xs)
    × ((made []).listeners ≡ m ∷ ys)
build-same_proxy_example =
    build-same_proxy sha256 accept (params one_way) (params []) (made one_way) (made []) refl
      (builds one_way) (builds [])
