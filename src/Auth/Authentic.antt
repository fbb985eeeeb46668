-- ===== src/Auth/Authentic.antt =====
-- Whom `User` of admin/internal/auth/auth.go takes a request to be from.
use sandcastle.Prelude.{
  ℕ, ◌≡◌, ◌≢◌, ◌⊎◌, inl, inr, refl, sym, ap, ◌∙◌, Option, none, some, List, [], ◌∷◌, Str, codes,
  str_eq, Bool, true, false, not, ◌&&◌, ◌||◌, Bool-cases, str_eq→eq, &&_split, subst, arith,
}
use sandcastle.Prelude.Int.{pos, int_lt}
use sandcastle.Http.{HttpRequest}
use sandcastle.Go.Strings.{cut, cut_prefix}
use sandcastle.Go.Base64.{decode}
use sandcastle.Auth.Config.{Config, User, test_user, Outside}
use sandcastle.Auth.Cookies.{session_cookie, signature, opened, decoded, get_signed, opened_signed}
use sandcastle.Auth.Session.{CodesBack, is_empty, is_live, live_user, user_of, user}

-- The configured token, which is not empty.
abbrev pub HasToken : Config → HttpRequest → User → Type 0
HasToken c r u =
    (u ≡ test_user)
    × (c.test_token ≢ [])
    × (cut_prefix (codes "Bearer ") r.authorization ≡ some c.test_token)

-- A session cookie that the key signed, for a user with an id and a CSRF token, and in time.
abbrev pub HasSession : Outside → Config → ℕ → HttpRequest → User → Type 0
HasSession o c now r u =
    (value : Str) × (payload : Str) × (raw : List ℕ) × (r.cookie session_cookie ≡ some value)
    × (cut b'.' value ≡ some (payload, signature o c session_cookie payload))
    × (decode payload ≡ some raw)
    × (o.unmarshal_user raw ≡ some u)
    × (int_lt u.exp (pos now) ≡ false)
    × (u.id ≢ [])
    × (u.csrf ≢ [])

not_empty : (s : Str) → is_empty s ≡ false → s ≢ []
unfolding is_empty
not_empty [] h = absurd (cc)
not_empty (c ∷ s) h = λ e. absurd (cc)

||_neither : (a b : Bool) → (a || b) ≡ false → (a ≡ false) × (b ≡ false)
||_neither a b h = (ground arith, ground arith)

not-true : (a : Bool) → not a ≡ true → a ≡ false
not-true a h = ground arith

is_live_parts :
    (now : ℕ) (u : User)
    → is_live now u ≡ true
    → (int_lt u.exp (pos now) ≡ false) × (u.id ≢ []) × (u.csrf ≢ [])
unfolding is_live
is_live_parts now u h =
    let (a, b) = ||_neither _ _ (not-true _ h) in
    let (i, k) = ||_neither _ _ b in (a, not_empty u.id i, not_empty u.csrf k)

live_user_parts :
    (now : ℕ) (p : Option User) (u : User)
    → live_user now p ≡ some u
    → (p ≡ some u) × (is_live now u ≡ true)
unfolding live_user
live_user_parts now none u h = absurd (cc)
live_user_parts now (some v) u h = elim (Bool-cases (is_live now v)) [
  | inl q ↦
      let e : some v ≡ some u = rw q at h in
      let d : v ≡ u = cc in (e, subst (λ w. is_live now w ≡ true) d q)
  | inr q ↦ absurd (let e : none ≡ some u = rw q at h in cc)
]

opened_parts :
    (o : Outside) (c : Config) (name : Str) (v : Option Str) (u : User)
    → decoded o.unmarshal_user (opened o c name v) ≡ some u
    → (value : Str) × (payload : Str) × (raw : List ℕ) × (v ≡ some value)
      × (cut b'.' value ≡ some (payload, signature o c name payload))
      × (decode payload ≡ some raw)
      × (o.unmarshal_user raw ≡ some u)
unfolding opened decoded
opened_parts o c name v u h = go v (opened o c name v) refl h
  where
    go :
        (v : Option Str) (p : Option (List ℕ))
        → opened o c name v ≡ p
        → decoded o.unmarshal_user p ≡ some u
        → (value : Str) × (payload : Str) × (raw : List ℕ) × (v ≡ some value)
          × (cut b'.' value ≡ some (payload, signature o c name payload))
          × (decode payload ≡ some raw)
          × (o.unmarshal_user raw ≡ some u)
    go v none e k = absurd (cc)
    go none (some raw) e k = absurd (cc)
    go (some value) (some raw) e k =
        let (payload, p, d) = opened_signed o c name value raw e in
        (value, payload, raw, refl, p, d, k)

-- A user is the test hook, with the token that is configured, or has a session that was signed
-- with the key under the session cookie's name and has not expired.
pub user_authentic :
    (o : Outside) (c : Config) (now : ℕ) (r : HttpRequest) (u : User)
    → user o c now r ≡ some u
    → HasToken c r u ⊎ HasSession o c now r u
unfolding user user_of
user_authentic o c now r u h = go (cut_prefix (codes "Bearer ") r.authorization) refl h
  where
    go :
        (p : Option Str)
        → cut_prefix (codes "Bearer ") r.authorization ≡ p
        → user_of o c now r p ≡ some u
        → HasToken c r u ⊎ HasSession o c now r u
    go none e k =
        let (p, l) = live_user_parts now (get_signed o c r session_cookie o.unmarshal_user) u k in
        let (value, payload, raw, a, b, d, m) =
          opened_parts o c session_cookie (r.cookie session_cookie) u p in
        let (x, y, z) = is_live_parts now u l in inr (value, payload, raw, a, b, d, m, x, y, z)
    go (some token) e k =
        elim (Bool-cases (not (is_empty c.test_token) && str_eq token c.test_token)) [
          | inl q ↦
              let (a, b) =
                &&_split {a = not (is_empty c.test_token)} {b = str_eq token c.test_token} q in
              let t : some test_user ≡ some u = rw q at k in
              let s : test_user ≡ u = cc in
              inl (
                sym s,
                not_empty c.test_token (not-true _ a),
                e ∙ ap some (str_eq→eq token c.test_token b),
              )
          | inr q ↦ absurd (let t : none ≡ some u = rw q at k in cc)
        ]

-- The CSRF exemption is the test hook's.
pub bearer-HasToken :
    (o : Outside) (c : Config) (now : ℕ) (r : HttpRequest) (u : User)
    → CodesBack o
    → user o c now r ≡ some u
    → u.bearer ≡ true
    → HasToken c r u
bearer-HasToken o c now r u back h b = elim (user_authentic o c now r u h) [
  | inl t ↦ t
  | inr (value, payload, raw, p, d, s, m, x, y, z) ↦
      absurd (let n = back.user_untagged raw u m in cc)
]
