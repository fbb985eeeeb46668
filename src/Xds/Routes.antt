-- ===== src/Xds/Routes.antt =====
-- `hashName`, `rbacPerRoute` and the virtual hosts, clusters and listeners that the loop of `Build`
-- in admin/internal/xds/build.go makes of one key.
use sandcastle.Prelude.{
  ℕ, true, Bool, List, [], ◌∷◌, ◌++◌, Str, codes, map, take, ◌/◌, ◌%◌, ◌+◌, ◌-◌, if◌then◌else◌, ltb,
}
use sandcastle.Prelude.Int.{ℤ, pos, int_eq}
use sandcastle.Go.Durations.{whole_seconds}
use sandcastle.Go.Numbers.{show_int}
use sandcastle.Go.Url.{utf8}
use sandcastle.Policy.Hosts.{HostKey, IpSet, ips_at}
use sandcastle.Xds.Json.{Json, text, int, flag, obj, arr, ◌:=◌, lit, typed}
use sandcastle.Xds.Listeners.{sni_listener}

-- Params; the tunnels' limit in nanoseconds.
pub record Params : Type 0 where
  pub hosts : IpSet
  pub request_url : Str
  pub tunnel_max : ℤ

-- hex.EncodeToString
unfoldable pub hex_digit : ℕ → ℕ
hex_digit n = if ltb n 10 then b'0' + n else b'a' + (n - 10)

unfoldable pub hex : List ℕ → Str
unfolding hex_digit
hex [] = []
hex (b ∷ bs) = hex_digit (b / 16) ∷ hex_digit (b % 16) ∷ hex bs

-- strings.Join(ips, ",")
unfoldable pub join : List Str → Str
join [] = []
join (s ∷ []) = s
join (s ∷ t ∷ ss) = s ++ b',' ∷ join (t ∷ ss)

-- hashName, for the hash function SHA-256
unfoldable pub hash_name : (List ℕ → List ℕ) → HostKey → List Str → Str
unfolding hex join
hash_name sha256 k ips =
    hex (take 5 (sha256 (utf8 (k.host ++ b'|' ∷ (show_int k.port ++ b'|' ∷ join ips)))))

unfoldable pub principal : Str → Json
principal ip = obj (
    ("direct_remote_ip" := obj (("address_prefix" := text ip) ∷ ("prefix_len" := int 32) ∷ []))
    ∷ [])

unfoldable pub rbac_per_route : List Str → Json
unfolding principal
rbac_per_route ips = typed "envoy.extensions.filters.http.rbac.v3.RBACPerRoute" (
    ("rbac"
      := obj (
          ("rules"
            := obj (
                ("action" := lit "ALLOW")
                ∷ ("policies"
                    := obj (
                        ("workspaces"
                          := obj (
                              ("permissions" := arr (obj (("any" := flag true) ∷ []) ∷ []))
                              ∷ ("principals" := arr (map principal ips))
                              ∷ []))
                        ∷ []))
                ∷ []))
          ∷ []))
    ∷ [])

unfoldable pub per_route : List Str → Json
unfolding rbac_per_route
per_route ips = obj (("envoy.filters.http.rbac" := rbac_per_route ips) ∷ [])

unfoldable pub sni_name : Str → Str
sni_name hash = codes "sni_" ++ hash

-- A virtual host for CONNECT to port 443, over the key's internal listener.
unfoldable pub tls_vhost : ℤ → Str → HostKey → List Str → Json
unfolding per_route sni_name
tls_vhost tunnel_max hash k ips = obj (
    ("name" := text (codes "h_" ++ hash))
    ∷ ("domains" := arr (text (k.host ++ codes ":443") ∷ []))
    ∷ ("typed_per_filter_config" := per_route ips)
    ∷ ("routes"
        := arr (
            obj (
              ("match" := obj (("connect_matcher" := obj []) ∷ []))
              ∷ ("route"
                  := obj (
                      ("cluster" := text (sni_name hash))
                      ∷ ("max_stream_duration"
                          := obj (
                              ("max_stream_duration"
                                := text (show_int (whole_seconds tunnel_max) ++ codes "s"))
                              ∷ []))
                      ∷ ("upgrade_configs"
                          := arr (
                              obj (
                                ("upgrade_type" := lit "CONNECT")
                                ∷ ("connect_config" := obj [])
                                ∷ [])
                              ∷ []))
                      ∷ []))
              ∷ [])
            ∷ []))
    ∷ [])

-- A virtual host for plain HTTP.
unfoldable pub http_vhost : Str → HostKey → List Str → Json
unfolding per_route
http_vhost hash k ips = obj (
    ("name" := text (codes "h_" ++ hash))
    ∷ ("domains" := arr (text k.host ∷ text (k.host ++ codes ":80") ∷ []))
    ∷ ("typed_per_filter_config" := per_route ips)
    ∷ ("routes"
        := arr (
            obj (
              ("match" := obj (("prefix" := lit "/") ∷ []))
              ∷ ("route" := obj (("cluster" := lit "dfp_http") ∷ []))
              ∷ [])
            ∷ []))
    ∷ [])

unfoldable pub sni_cluster : Str → Json
unfolding sni_name
sni_cluster hash = obj (
    ("name" := text (sni_name hash))
    ∷ ("load_assignment"
        := obj (
            ("cluster_name" := text (sni_name hash))
            ∷ ("endpoints"
                := arr (
                    obj (
                      ("lb_endpoints"
                        := arr (
                            obj (
                              ("endpoint"
                                := obj (
                                    ("address"
                                      := obj (
                                          ("envoy_internal_address"
                                            := obj (
                                                ("server_listener_name" := text (sni_name hash))
                                                ∷ []))
                                          ∷ []))
                                    ∷ []))
                              ∷ [])
                            ∷ []))
                      ∷ [])
                    ∷ []))
            ∷ []))
    ∷ [])

-- The last virtual host: 403 for everything else.
unfoldable pub deny_vhost : Json
deny_vhost = obj (
    ("name" := lit "deny")
    ∷ ("domains" := arr (lit "*" ∷ []))
    ∷ ("routes"
        := arr (
            obj (
              ("match" := obj (("connect_matcher" := obj []) ∷ []))
              ∷ ("direct_response" := obj (("status" := int 403) ∷ []))
              ∷ [])
            ∷ obj (
                ("match" := obj (("prefix" := lit "/") ∷ []))
                ∷ ("direct_response" := obj (("status" := int 403) ∷ []))
                ∷ [])
            ∷ []))
    ∷ [])

unfoldable pub is_tls : HostKey → Bool
is_tls k = int_eq k.port (pos 443)

module _ (sha256 : List ℕ → List ℕ) (p : Params) where
  -- What the loop appends to the virtual hosts, clusters and listeners for a key.
  unfoldable pub vhost_of : HostKey → Json
  unfolding is_tls hash_name tls_vhost http_vhost
  vhost_of k =
      if is_tls k
      then tls_vhost p.tunnel_max (hash_name sha256 k (ips_at k p.hosts)) k (ips_at k p.hosts)
      else http_vhost (hash_name sha256 k (ips_at k p.hosts)) k (ips_at k p.hosts)

  unfoldable pub clusters_of : List HostKey → List Json
  unfolding is_tls hash_name sni_cluster
  clusters_of [] = []
  clusters_of (k ∷ ks) =
      if is_tls k
      then sni_cluster (hash_name sha256 k (ips_at k p.hosts)) ∷ clusters_of ks
      else clusters_of ks

  unfoldable pub listeners_of : List HostKey → List Json
  unfolding is_tls hash_name sni_listener sni_name
  listeners_of [] = []
  listeners_of (k ∷ ks) =
      if is_tls k
      then sni_listener (sni_name (hash_name sha256 k (ips_at k p.hosts))) k.host ∷ listeners_of ks
      else listeners_of ks
