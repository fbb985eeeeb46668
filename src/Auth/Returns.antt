-- ===== src/Auth/Returns.antt =====
-- A login from its start to its return: `Login` and `Callback` of admin/internal/auth/auth.go.
use sandcastle.Prelude.{
  ℕ, ◌+◌, ◌≤◌, ◌≡◌, ◌⊎◌, inl, inr, refl, sym, ap, ◌∙◌, some, List, [], ◌∷◌, Str, codes, true, false,
  arith, Bool-cases, eq→str_eq, subst, not, Option, none, &&_split, ◌==◌, ==_iff, ◌≢◌, ◌↔◌, ◌++◌,
  In, any, any_of-In, In-of-any,
}
use sandcastle.Prelude.Int.{pos, negsuc, int_lt}
use sandcastle.Http.{HttpRequest, found, or_empty}
use sandcastle.Prelude.Affix.{has_prefix}
use sandcastle.Auth.Config.{Config, User, Flow, no_flow, Outside, Url}
use sandcastle.Auth.Cookies.{
  flow_cookie, random, set_signed, opened, decoded, get_signed, opened-sign,
}
use sandcastle.Auth.Session.{CodesBack, is_empty, issue}
use sandcastle.Auth.Login.{
  is_unsafe, local_url, local_path, next_of, new_flow, flow_signed, flow_ttl, me, signed_in,
  exchanged, with_flow, callback,
}

-- A place of this site: a reference without scheme and host, whose path is absolute and does not
-- start with two slashes, and neither it nor its decoded path has a control character or a backslash.
pub record Local (o : Outside) (asked : Str) : Type 0 where
  pub url : Url
  pub parsed : o.parse_url asked ≡ some url
  pub no_scheme : url.scheme ≡ []
  pub no_host : url.host ≡ []
  pub rest : Str
  pub path : url.path ≡ b'/' ∷ rest
  pub one_slash : (t : Str) → rest ≢ b'/' ∷ t
  pub safe : (c : ℕ) → In c (asked ++ url.path) → (32 ≤ c) × (c ≢ 127) × (c ≢ 92)

-- Where a login returns that asked for a place: there where it is of this site, or else to "/".
abbrev pub Returns : Outside → Str → Str → Type 0
Returns o asked to = (Local o asked × (to ≡ asked)) ⊎ ((¬ Local o asked) × (to ≡ codes "/"))

is_unsafe-eq : (c : ℕ) → (is_unsafe c ≡ false) ↔ ((32 ≤ c) × (c ≢ 127) × (c ≢ 92))
unfolding is_unsafe
is_unsafe-eq c = (
  λ h. (ground arith, λ e. ground arith, λ e. ground arith),
  λ (a, b, d). elim (Bool-cases (c == 127)) [
    | inl e ↦ absurd (b ((==_iff c 127).0 e))
    | inr e ↦ elim (Bool-cases (c == 92)) [
      | inl f ↦ absurd (d ((==_iff c 92).0 f))
      | inr f ↦ ground arith
    ]
  ],
)

all_safe :
    (s : Str) → (any is_unsafe s ≡ false) ↔ ((c : ℕ) → In c s → (32 ≤ c) × (c ≢ 127) × (c ≢ 92))
all_safe s = (
  λ h c m. (is_unsafe-eq c).0 (elim (Bool-cases (is_unsafe c)) [
    | inl e ↦ let k = any_of-In is_unsafe c s m e in absurd (cc)
    | inr e ↦ e
  ]),
  λ h. elim (Bool-cases (any is_unsafe s)) [
    | inr e ↦ e
    | inl e ↦
        let (c, m, k) = In-of-any is_unsafe s e in let l = (is_unsafe-eq c).1 (h c m) in absurd (cc)
  ],
)

slash : (s : Str) → (has_prefix s (codes "/") ≡ true) ↔ ((t : Str) × (s ≡ b'/' ∷ t))
unfolding has_prefix codes
slash [] = (λ h. absurd (cc), λ (t, e). absurd (cc))
slash (c ∷ s) = (λ h. (s, let k = (==_iff c b'/').0 (ground arith) in cc), λ (t, e). ground arith)

slashes : (s : Str) → (has_prefix (b'/' ∷ s) (codes "//") ≡ false) ↔ ((t : Str) → s ≢ b'/' ∷ t)
unfolding has_prefix codes
slashes [] = (λ h t e. absurd (cc), λ h. refl)
slashes (c ∷ s) = (
  λ h t e. ground arith,
  λ h. elim (Bool-cases (c == b'/')) [
    | inl e ↦ absurd (h s (let k = (==_iff c b'/').0 e in cc))
    | inr e ↦ rw e refl
  ],
)

is_empty-eq : (s : Str) → (is_empty s ≡ true) ↔ (s ≡ [])
unfolding is_empty
is_empty-eq [] = (λ h. refl, λ e. refl)
is_empty-eq (c ∷ s) = (λ h. absurd (cc), λ e. absurd (cc))

local_path-Local : (o : Outside) (asked : Str) → (local_path o asked ≡ true) ↔ Local o asked
unfolding local_path
local_path-Local o asked = (λ h. from (o.parse_url asked) refl h, λ l. rw l.parsed (to l))
  where
    from : (u : Option Url) → o.parse_url asked ≡ u → local_url asked u ≡ true → Local o asked
    from none e h = absurd (unfold local_url in cc)
    from (some u) e h =
        let (a, h1) = &&_split {a = is_empty u.scheme} (unfold local_url in h) in
        let (b, h2) = &&_split {a = is_empty u.host} h1 in
        let (c, h3) = &&_split {a = has_prefix u.path (codes "/")} h2 in
        let (d, f) = &&_split {a = not (has_prefix u.path (codes "//"))} h3 in
        let (t, q) = (slash u.path).0 c in
        let twice : has_prefix u.path (codes "//") ≡ false = ground arith in
        record {
          url = u;
          parsed = e;
          no_scheme = (is_empty-eq u.scheme).0 a;
          no_host = (is_empty-eq u.host).0 b;
          rest = t;
          path = q;
          one_slash = (slashes t).0 (subst (λ x. has_prefix x (codes "//") ≡ false) q twice);
          safe = (all_safe (asked ++ u.path)).0 (ground arith);
        }

    to : (l : Local o asked) → local_url asked (some l.url) ≡ true
    to l =
        let twice : has_prefix l.url.path (codes "//") ≡ false =
          subst (λ x. has_prefix x (codes "//") ≡ false) (sym l.path)
            ((slashes l.rest).1 l.one_slash) in
        unfold local_url in
        (rw
          (
            (is_empty-eq l.url.scheme).1 l.no_scheme,
            (is_empty-eq l.url.host).1 l.no_host,
            (slash l.url.path).1 (l.rest, l.path),
            twice,
            (all_safe (asked ++ l.url.path)).1 l.safe,
          )
          refl)

-- Where a login returns.
next_of-Returns :
    (o : Outside) (r : HttpRequest) → Returns o (or_empty (r.query (codes "next"))) (next_of o r)
unfolding next_of
next_of-Returns o r =
    let asked = or_empty (r.query (codes "next")) in
    let is = local_path-Local o asked in
    elim (Bool-cases (local_path o asked)) [
      | inl p ↦ rw p (inl (is.0 p, refl))
      | inr p ↦ rw p (inr (λ l. let k = is.1 l in absurd (cc), refl))
    ]

-- The cookie of a flow opens to it.
flow_back :
    (o : Outside) (c : Config) (f : Flow) (r : HttpRequest)
    → CodesBack o
    → r.cookie flow_cookie ≡ some (flow_signed o c f (pos flow_ttl)).value
    → get_signed o c r flow_cookie o.unmarshal_flow ≡ some f
unfolding get_signed flow_signed set_signed
flow_back o c f r back k =
    let opens : opened o c flow_cookie (r.cookie flow_cookie) ≡ some (o.marshal_flow f) =
      ap (λ v. opened o c flow_cookie v) k ∙ opened-sign o c flow_cookie _ (back.flow_bytes f) in
    ap (λ p. decoded o.unmarshal_flow p) opens ∙ back.flow-back f

-- A flow in time and with its state.
with_flow-some :
    {P : Type 0} (o : Outside) (c : Config) (now : ℕ) (bytes : List ℕ) (r : HttpRequest) (f : Flow)
    (token : Str) (u : User)
    → int_lt f.exp (pos now) ≡ false
    → or_empty (r.query (codes "state")) ≡ f.state
    → o.exchange c (or_empty (r.query (codes "code"))) f.verifier ≡ some token
    → me o c token ≡ some u
    → with_flow {P = P} o c now bytes r (some f)
      ≡ found (flow_signed o c no_flow (negsuc 0) ∷ (issue o c now bytes u).1 ∷ []) f.next
unfolding with_flow exchanged
with_flow-some {P} o c now bytes r f token u e s x m =
    rw (e, eq→str_eq _ _ s) (ap (λ p. exchanged o c now bytes f p) x ∙ signs)
  where
    signs :
        exchanged {P = P} o c now bytes f (some token)
        ≡ found (flow_signed o c no_flow (negsuc 0) ∷ (issue o c now bytes u).1 ∷ []) f.next
    signs = ap (λ p. signed_in o c now bytes f p) m

-- A callback within ten minutes that brings the cookie and the state of a login, for a code that
-- the provider exchanges and a user that Coder names, starts the user's session and goes where the
-- login was asked to return, where that is a place of this site, and to "/"
-- otherwise.
pub callback-login :
    {P : Type 0} (o : Outside) (c : Config) (now later : ℕ) (bytes more : List ℕ)
    (verifier token : Str) (u : User) (start r : HttpRequest)
    → CodesBack o
    → r.cookie flow_cookie
      ≡ some (flow_signed o c (new_flow o now bytes verifier start) (pos flow_ttl)).value
    → or_empty (r.query (codes "state")) ≡ random bytes
    → later ≤ now + 600
    → o.exchange c (or_empty (r.query (codes "code"))) verifier ≡ some token
    → me o c token ≡ some u
    → (callback {P = P} o c later more r
        ≡ found
            (flow_signed o c no_flow (negsuc 0) ∷ (issue o c later more u).1 ∷ [])
            (next_of o start))
      × Returns o (or_empty (start.query (codes "next"))) (next_of o start)
unfolding callback new_flow int_lt
callback-login o c now later bytes more verifier token u start r back k s t x m = (
  ap (λ p. with_flow o c later more r p)
        (flow_back o c (new_flow o now bytes verifier start) r back k)
      ∙ with_flow-some o c later more r (new_flow o now bytes verifier start) token u in_time s x m,
  next_of-Returns o start,
)
  where
    in_time : int_lt (pos (now + 600)) (pos later) ≡ false
    in_time = ground arith
