-- ===== src/Xds/Build.antt =====
-- `Build` of admin/internal/xds/build.go. Decoding into a typed message, with its validation, is
-- protojson's and the generated messages': a parameter.
use sandcastle.Prelude.{
  ℕ, not, Bool, Option, none, some, List, [], ◌∷◌, ◌++◌, map, str_eq, str_lt, if◌then◌else◌,
}
use sandcastle.Prelude.Int.{int_lt}
use sandcastle.Prelude.Sort.{sort}
use sandcastle.Go.Strings.{contains}
use sandcastle.Policy.Hosts.{HostKey, keys_of}
use sandcastle.Xds.Json.{Json, text, obj, arr, ◌:=◌}
use sandcastle.Xds.Listeners.{proxy_listener, dfp_cluster, route_name}
use sandcastle.Xds.Routes.{Params, vhost_of, clusters_of, listeners_of, deny_vhost}

unfoldable pub key_lt : HostKey → HostKey → Bool
key_lt k l = if not (str_eq k.host l.host) then str_lt k.host l.host else int_lt k.port l.port

unfoldable pub sorted_keys : Params → List HostKey
sorted_keys p = sort key_lt (keys_of p.hosts)

pub data Kind : Type 0 where
  listener cluster route : Kind

-- The resources of a snapshot, by type.
pub record Resources (M : Type 0) : Type 0 where
  pub listeners : List M
  pub clusters : List M
  pub routes : List M

pub data Built (M : Type 0) : Type 0 where
  built : Resources M → Built M
  bad_url bad_listener bad_cluster bad_route : Built M

-- The resources, or none where one of them does not decode.
unfoldable pub cons_decoded : {M : Type 0} → Option M → Option (List M) → Option (List M)
cons_decoded (some m) (some ms) = some (m ∷ ms)
cons_decoded (some m) none = none
cons_decoded none ms = none

unfoldable pub decode_all : {M : Type 0} → (Json → Option M) → List Json → Option (List M)
unfolding cons_decoded
decode_all decode [] = some []
decode_all decode (v ∷ vs) = cons_decoded (decode v) (decode_all decode vs)

unfoldable pub assemble : {M : Type 0} → Option (List M) → Option (List M) → Option M → Built M
assemble none cs r = bad_listener
assemble (some ls) none r = bad_cluster
assemble (some ls) (some cs) none = bad_route
assemble (some ls) (some cs) (some r) =
    built (record { listeners = ls; clusters = cs; routes = r ∷ [] })

module _ (sha256 : List ℕ → List ℕ) where
  unfoldable pub vhosts : Params → List Json
  unfolding sorted_keys
  vhosts p = map (vhost_of sha256 p) (sorted_keys p) ++ deny_vhost ∷ []

  unfoldable pub all_listeners : Params → List Json
  unfolding sorted_keys
  all_listeners p = proxy_listener p.request_url ∷ listeners_of sha256 p (sorted_keys p)

  unfoldable pub all_clusters : Params → List Json
  unfolding sorted_keys
  all_clusters p =
      dfp_cluster "dfp_http" ∷ dfp_cluster "dfp_sni" ∷ clusters_of sha256 p (sorted_keys p)

  unfoldable pub route_config : Params → Json
  unfolding vhosts
  route_config p = obj (("name" := text route_name) ∷ ("virtual_hosts" := arr (vhosts p)) ∷ [])

  -- Build
  unfoldable pub build : {M : Type 0} → (Kind → Json → Option M) → Params → Built M
  unfolding decode_all assemble all_listeners all_clusters route_config
  build decode p =
      if contains b'%' p.request_url
      then bad_url
      else assemble (decode_all (decode listener) (all_listeners p))
          (decode_all (decode cluster) (all_clusters p)) (decode route (route_config p))
