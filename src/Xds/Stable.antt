-- ===== src/Xds/Stable.antt =====
-- What every build of admin/internal/xds/build.go has alike.
use sandcastle.Prelude.{
  ◌≡◌, inl, inr, refl, sym, ap, ◌∙◌, ℕ, false, Option, none, some, List, [], ◌∷◌, Bool-cases,
}
use sandcastle.Go.Strings.{contains}
use sandcastle.Xds.Json.{Json}
use sandcastle.Xds.Listeners.{proxy_listener}
use sandcastle.Xds.Routes.{Params}
use sandcastle.Xds.Build.{
  Kind, listener, Resources, built, bad_url, cons_decoded, decode_all, assemble, all_listeners,
  build,
}

-- The first of a list that decodes.
first_decoded :
    {M : Type 0} (decode : Json → Option M) (v : Json) (vs : List Json) (ms : List M)
    → decode_all decode (v ∷ vs) ≡ some ms
    → (m : M) × (rest : List M) × (decode v ≡ some m) × (ms ≡ m ∷ rest)
unfolding decode_all cons_decoded
first_decoded {M} decode v vs ms h = go (decode v) (decode_all decode vs) refl h
  where
    go :
        (o : Option M) (p : Option (List M))
        → decode v ≡ o
        → cons_decoded o p ≡ some ms
        → (m : M) × (rest : List M) × (decode v ≡ some m) × (ms ≡ m ∷ rest)
    go none p e k = absurd (cc)
    go (some m) none e k = absurd (cc)
    go (some m) (some rest) e k = (m, rest, e, cc)

assemble_built :
    {M : Type 0} (ls cs : Option (List M)) (r : Option M) (out : Resources M)
    → assemble ls cs r ≡ built out
    → ls ≡ some out.listeners
unfolding assemble
assemble_built none cs r out h = absurd (cc)
assemble_built (some ls) none r out h = absurd (cc)
assemble_built (some ls) (some cs) none out h = absurd (cc)
assemble_built {M} (some ls) (some cs) (some r) out h =
    let e : record { listeners = ls; clusters = cs; routes = r ∷ [] } ≡ out = cc in
    ap (λ (x : Resources M). some x.listeners) e

-- Every build that succeeds puts the proxy listener first, and decodes it from the request URL alone.
pub build_proxy :
    {M : Type 0} (sha256 : List ℕ → List ℕ) (decode : Kind → Json → Option M) (p : Params)
    (out : Resources M)
    → build sha256 decode p ≡ built out
    → (contains b'%' p.request_url ≡ false)
      × ((m : M) × (rest : List M) × (decode listener (proxy_listener p.request_url) ≡ some m)
          × (out.listeners ≡ m ∷ rest))
unfolding build all_listeners
build_proxy {M} sha256 decode p out h = elim (Bool-cases (contains b'%' p.request_url)) [
  | inl e ↦ absurd (let k : bad_url ≡ built out = rw e at h in cc)
  | inr e ↦ (
    e,
    first_decoded (decode listener) (proxy_listener p.request_url) _ out.listeners
        (assemble_built _ _ _ out (rw e at h)),
  )
]

-- Two builds with one request URL have the same proxy listener, whatever the policies are: a push
-- does not drain it.
pub build-same_proxy :
    {M : Type 0} (sha256 : List ℕ → List ℕ) (decode : Kind → Json → Option M) (p q : Params)
    (a b : Resources M)
    → p.request_url ≡ q.request_url
    → build sha256 decode p ≡ built a
    → build sha256 decode q ≡ built b
    → (m : M) × (xs : List M) × (ys : List M) × (a.listeners ≡ m ∷ xs) × (b.listeners ≡ m ∷ ys)
build-same_proxy {M} sha256 decode p q a b u ha hb =
    let (c, (m, xs, dm, ea)) = build_proxy sha256 decode p a ha in
    let (d, (n, ys, dn, eb)) = build_proxy sha256 decode q b hb in
    let k : some m ≡ some n = sym dm ∙ (ap (λ s. decode listener (proxy_listener s)) u ∙ dn) in
    let e : n ≡ m = cc in (m, xs, ys, ea, eb ∙ ap (λ x. x ∷ ys) e)
