-- ===== src/Xds/Listeners.antt =====
-- `dnsCache`, `proxyListener`, `sniListener` and `dfpCluster` of admin/internal/xds/build.go.
use Prim.Native.String.{String}
use sandcastle.Prelude.{[], ◌∷◌, ◌++◌, Str, codes}
use sandcastle.Xds.Json.{Json, text, int, obj, arr, ◌:=◌, lit, typed}

-- RouteName
unfoldable pub route_name : Str
route_name = codes "egress"

unfoldable pub dns_cache : Json
dns_cache = obj (("name" := lit "dfp") ∷ ("dns_lookup_family" := lit "V4_ONLY") ∷ [])

-- A name with its typed configuration, as an extension has.
unfoldable pub extension : String → Json → Json
extension name config = obj (("name" := lit name) ∷ ("typed_config" := config) ∷ [])

-- The access log on standard output.
unfoldable pub stdout_log : Json → Json
unfolding extension typed
stdout_log format = extension "envoy.access_loggers.stdout" (
    typed "envoy.extensions.access_loggers.stream.v3.StdoutAccessLog"
      (("log_format" := obj (("json_format" := format) ∷ [])) ∷ []))

unfoldable pub proxy_log_format : Json
proxy_log_format = obj (
    ("time" := lit "%START_TIME%")
    ∷ ("src" := lit "%DOWNSTREAM_REMOTE_ADDRESS_WITHOUT_PORT%")
    ∷ ("method" := lit "%REQ(:METHOD)%")
    ∷ ("authority" := lit "%REQ(:AUTHORITY)%")
    ∷ ("code" := lit "%RESPONSE_CODE%")
    ∷ ("flags" := lit "%RESPONSE_FLAGS%")
    ∷ ("bytes_up" := lit "%BYTES_RECEIVED%")
    ∷ ("bytes_down" := lit "%BYTES_SENT%")
    ∷ [])

-- The access log of the admin server.
unfoldable pub grpc_log : Json
unfolding extension typed
grpc_log = extension "envoy.access_loggers.http_grpc" (
    typed "envoy.extensions.access_loggers.grpc.v3.HttpGrpcAccessLogConfig" (
      ("common_config"
        := obj (
            ("log_name" := lit "egress")
            ∷ ("transport_api_version" := lit "V3")
            ∷ ("grpc_service"
                := obj (("envoy_grpc" := obj (("cluster_name" := lit "admin") ∷ [])) ∷ []))
            ∷ []))
      ∷ []))

-- The body of a refusal, with the link to the request form.
unfoldable pub deny_body : Str → Str
deny_body request_url =
    codes "sandcastle: egress to %REQ(:AUTHORITY)% is not allowed for this workspace.\n"
    ++ (codes "Request access: "
        ++ (request_url
            ++ codes "?src=%DOWNSTREAM_REMOTE_ADDRESS_WITHOUT_PORT%&host=%REQ(:AUTHORITY)%\n"))

unfoldable pub local_reply : Str → Json
unfolding deny_body
local_reply request_url = obj (
    ("mappers"
      := arr (
          obj (
            ("filter"
              := obj (
                  ("status_code_filter"
                    := obj (
                        ("comparison"
                          := obj (
                              ("op" := lit "EQ")
                              ∷ ("value"
                                  := obj (
                                      ("default_value" := int 403)
                                      ∷ ("runtime_key" := lit "sandcastle.deny")
                                      ∷ []))
                              ∷ []))
                        ∷ []))
                  ∷ []))
            ∷ ("headers_to_add"
                := arr (
                    obj (
                      ("header"
                        := obj (
                            ("key" := lit "x-sandcastle-denied")
                            ∷ ("value"
                                := lit
                                    "host=%REQ(:AUTHORITY)%; source=%DOWNSTREAM_REMOTE_ADDRESS_WITHOUT_PORT%")
                            ∷ []))
                      ∷ [])
                    ∷ []))
            ∷ ("body_format_override"
                := obj (
                    ("text_format_source"
                      := obj (("inline_string" := text (deny_body request_url)) ∷ []))
                    ∷ []))
            ∷ [])
          ∷ []))
    ∷ [])

-- The base RBAC filter allows nothing, then come the forward proxy and the router.
unfoldable pub http_filters : Json
unfolding extension typed dns_cache
http_filters = arr (
    extension "envoy.filters.http.rbac" (
      typed "envoy.extensions.filters.http.rbac.v3.RBAC"
        (("rules" := obj (("action" := lit "ALLOW") ∷ [])) ∷ []))
    ∷ extension "envoy.filters.http.dynamic_forward_proxy" (
        typed "envoy.extensions.filters.http.dynamic_forward_proxy.v3.FilterConfig"
          (("dns_cache_config" := dns_cache) ∷ []))
    ∷ extension "envoy.filters.http.router"
        (typed "envoy.extensions.filters.http.router.v3.Router" [])
    ∷ [])

unfoldable pub connection_manager : Str → Json
unfolding typed stdout_log proxy_log_format grpc_log local_reply http_filters route_name
connection_manager request_url =
    typed "envoy.extensions.filters.network.http_connection_manager.v3.HttpConnectionManager" (
      ("stat_prefix" := lit "egress")
      ∷ ("upgrade_configs" := arr (obj (("upgrade_type" := lit "CONNECT") ∷ []) ∷ []))
      ∷ ("rds"
          := obj (
              ("route_config_name" := text route_name)
              ∷ ("config_source"
                  := obj (("ads" := obj []) ∷ ("resource_api_version" := lit "V3") ∷ []))
              ∷ []))
      ∷ ("access_log" := arr (stdout_log proxy_log_format ∷ grpc_log ∷ []))
      ∷ ("local_reply_config" := local_reply request_url)
      ∷ ("http_filters" := http_filters)
      ∷ [])

unfoldable pub proxy_listener : Str → Json
unfolding extension connection_manager
proxy_listener request_url = obj (
    ("name" := lit "proxy")
    ∷ ("address"
        := obj (
            ("socket_address"
              := obj (("address" := lit "0.0.0.0") ∷ ("port_value" := int 3128) ∷ []))
            ∷ []))
    ∷ ("filter_chains"
        := arr (
            obj (
              ("filters"
                := arr (
                    extension "envoy.filters.network.http_connection_manager"
                      (connection_manager request_url)
                    ∷ []))
              ∷ [])
            ∷ []))
    ∷ [])

unfoldable pub sni_log_format : Json
sni_log_format = obj (
    ("time" := lit "%START_TIME%")
    ∷ ("stage" := lit "sni")
    ∷ ("sni" := lit "%REQUESTED_SERVER_NAME%")
    ∷ ("flags" := lit "%RESPONSE_FLAGS%")
    ∷ ("bytes_up" := lit "%BYTES_RECEIVED%")
    ∷ ("bytes_down" := lit "%BYTES_SENT%")
    ∷ [])

-- Only a TLS handshake for the host, which is then dialled.
unfoldable pub sni_listener : Str → Str → Json
unfolding extension typed dns_cache stdout_log sni_log_format
sni_listener name host = obj (
    ("name" := text name)
    ∷ ("internal_listener" := obj [])
    ∷ ("listener_filters"
        := arr (
            extension "envoy.filters.listener.tls_inspector"
              (typed "envoy.extensions.filters.listener.tls_inspector.v3.TlsInspector" [])
            ∷ []))
    ∷ ("filter_chains"
        := arr (
            obj (
              ("filter_chain_match" := obj (("server_names" := arr (text host ∷ [])) ∷ []))
              ∷ ("filters"
                  := arr (
                      extension "envoy.filters.network.sni_dynamic_forward_proxy" (
                        typed
                          "envoy.extensions.filters.network.sni_dynamic_forward_proxy.v3.FilterConfig"
                          (("port_value" := int 443) ∷ ("dns_cache_config" := dns_cache) ∷ []))
                      ∷ extension "envoy.filters.network.tcp_proxy" (
                          typed "envoy.extensions.filters.network.tcp_proxy.v3.TcpProxy"
                            (("stat_prefix" := text name) ∷ ("cluster" := lit "dfp_sni") ∷ []))
                      ∷ []))
              ∷ [])
            ∷ []))
    ∷ ("access_log" := arr (stdout_log sni_log_format ∷ []))
    ∷ [])

unfoldable pub dfp_cluster : String → Json
unfolding extension typed dns_cache
dfp_cluster name = obj (
    ("name" := lit name)
    ∷ ("lb_policy" := lit "CLUSTER_PROVIDED")
    ∷ ("cluster_type"
        := extension "envoy.clusters.dynamic_forward_proxy" (
            typed "envoy.extensions.clusters.dynamic_forward_proxy.v3.ClusterConfig"
              (("dns_cache_config" := dns_cache) ∷ [])))
    ∷ [])
