-- ===== src/Main/Reconcile.antt =====
-- `apply` of admin/cmd/sandcastle-admin/main.go: load, build, push to Envoy, then to Cilium.
use sandcastle.Prelude.{
  ℕ, ◌≡◌, ◌⊎◌, inl, inr, refl, Bool, true, false, Option, none, some, List, [], ◌∷◌, ◌++◌, Str,
  codes,
}
use sandcastle.Prelude.Int.{ℤ, pos}
use sandcastle.Policy.Rules.{Input}
use sandcastle.Policy.Hosts.{HostKey, host_ips}
use sandcastle.Watch.{Pod, running}
use sandcastle.Cilium.Render.{render}
use sandcastle.Cilium.Apply.{Api, SpecEq, ApplyError}
use sandcastle.Cilium.Apply
use sandcastle.Xds.Json.{Json}
use sandcastle.Xds.Routes.{Params}
use sandcastle.Xds.Build.{
  Kind, Resources, Built, built, bad_url, bad_listener, bad_cluster, bad_route, build,
}
use sandcastle.Xds.Server.{XdsServer, Cache, push}

-- tunnelMax, an hour in nanoseconds
unfoldable pub tunnel_max : ℤ
tunnel_max = pos 3600000000000

-- What `apply` returns: nil, or which of its steps failed.
pub data Applied : Type 0 where
  applied load_failed build_failed push_failed cilium_failed : Applied

unfoldable pub of_cilium : List ApplyError → Applied
of_cilium [] = applied
of_cilium (e ∷ errs) = cilium_failed

-- in.Pods = pods.Running()
unfoldable pub with_pods : List Pod → Input → Input
with_pods pods p = record p { pods = running pods }

-- The outside: SHA-256, protojson, the cache, and the Kubernetes API with DeepEqual.
pub record World (M S C : Type 0) : Type 0 where
  pub sha256 : List ℕ → List ℕ
  pub decode : Kind → Json → Option M
  pub cache : Cache M S
  pub api : Api C
  pub spec_eq : SpecEq

module _ {M S C : Type 0} (w : World M S C) where
  unfoldable pub to_cilium : Input → XdsServer S → C → Applied × (XdsServer S × C)
  unfolding of_cilium
  to_cilium p x c =
      let (errs, c') = Apply.apply w.api w.spec_eq (render p) c in (of_cilium errs, (x, c'))

  unfoldable pub pushed : Input → Bool × XdsServer S → C → Applied × (XdsServer S × C)
  unfolding to_cilium
  pushed p (false, x) c = (push_failed, (x, c))
  pushed p (true, x) c = to_cilium p x c

  unfoldable pub to_envoy : Input → Built M → XdsServer S → C → Applied × (XdsServer S × C)
  unfolding pushed
  to_envoy p (built res) x c = pushed p (push w.cache res x) c
  to_envoy p bad_url x c = (build_failed, (x, c))
  to_envoy p bad_listener x c = (build_failed, (x, c))
  to_envoy p bad_cluster x c = (build_failed, (x, c))
  to_envoy p bad_route x c = (build_failed, (x, c))

  unfoldable pub params_of : Str → List HostKey → Input → Params
  unfolding tunnel_max
  params_of public_url order p = record {
    hosts = host_ips order p;
    request_url = public_url ++ codes "/r";
    tunnel_max = tunnel_max;
  }

  -- apply, where `PolicyInput` returned an input or an error, and the map of hosts yields its keys in
  -- some order.
  unfoldable pub apply :
      Str → List HostKey → Option Input → List Pod → XdsServer S → C → Applied × (XdsServer S × C)
  unfolding to_envoy params_of with_pods
  apply public_url order none pods x c = (load_failed, (x, c))
  apply public_url order (some p) pods x c =
      to_envoy (with_pods pods p)
        (build w.sha256 w.decode (params_of public_url order (with_pods pods p))) x c

  -- What the outcome says of the two sides.
  abbrev pub Ordered : Str → List HostKey → Option Input → List Pod → XdsServer S → C → Type 0
  Ordered public_url order loaded pods x c =
      let (r, (x', c')) = apply public_url order loaded pods x c in
      ((r ≡ load_failed) × (loaded ≡ none) × (x' ≡ x) × (c' ≡ c))
      ⊎ ((r ≡ build_failed) × (x' ≡ x) × (c' ≡ c))
      ⊎ ((r ≡ push_failed) × (c' ≡ c))
      ⊎ ((p : Input) × (res : Resources M) × (loaded ≡ some p)
          × (build w.sha256 w.decode (params_of public_url order (with_pods pods p)) ≡ built res)
          × (push w.cache res x ≡ (true, x'))
          × (Apply.apply w.api w.spec_eq (render (with_pods pods p)) c).1 ≡ c')

  -- Envoy goes first: Cilium's objects are touched only after a push that succeeded, of the resources
  -- built from the policy that is rendered for Cilium; where the load or the build fails, neither
  -- side changes.
  pub apply-Ordered :
      (public_url : Str) (order : List HostKey) (loaded : Option Input) (pods : List Pod)
      (x : XdsServer S) (c : C)
      → Ordered public_url order loaded pods x c
  unfolding apply to_envoy pushed to_cilium
  apply-Ordered public_url order none pods x c = inl (refl, refl, refl, refl)
  apply-Ordered public_url order (some p) pods x c =
      from_build (build w.sha256 w.decode (params_of public_url order (with_pods pods p))) refl
    where
      Goal : Applied × (XdsServer S × C) → Type 0
      Goal (r, (x', c')) =
          ((r ≡ load_failed) × (some p ≡ none) × (x' ≡ x) × (c' ≡ c))
          ⊎ ((r ≡ build_failed) × (x' ≡ x) × (c' ≡ c))
          ⊎ ((r ≡ push_failed) × (c' ≡ c))
          ⊎ ((q : Input) × (res : Resources M) × (some p ≡ some q)
              × (build w.sha256 w.decode (params_of public_url order (with_pods pods q))
                  ≡ built res)
              × (push w.cache res x ≡ (true, x'))
              × (Apply.apply w.api w.spec_eq (render (with_pods pods q)) c).1 ≡ c')

      from_push :
          (res : Resources M)
          → build w.sha256 w.decode (params_of public_url order (with_pods pods p)) ≡ built res
          → (y : Bool × XdsServer S) → push w.cache res x ≡ y
          → Goal (pushed (with_pods pods p) y c)
      from_push res b (false, x') e = inr (inr (inl (refl, refl)))
      from_push res b (true, x') e = inr (inr (inr (p, res, refl, b, e, refl)))

      from_build :
          (b : Built M)
          → build w.sha256 w.decode (params_of public_url order (with_pods pods p)) ≡ b
          → Goal (to_envoy (with_pods pods p) b x c)
      from_build (built res) e = from_push res e (push w.cache res x) refl
      from_build bad_url e = inr (inl (refl, refl, refl))
      from_build bad_listener e = inr (inl (refl, refl, refl))
      from_build bad_cluster e = inr (inl (refl, refl, refl))
      from_build bad_route e = inr (inl (refl, refl, refl))
