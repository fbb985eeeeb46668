-- ===== src/Auth/Session.antt =====
-- `User` and `Issue` of admin/internal/auth/auth.go.
use sandcastle.Prelude.{
  ℕ, ◌+◌, ◌*◌, ◌≡◌, Option, none, some, List, [], ◌∷◌, Str, codes, str_eq, All, Bool, true, false,
  not, ◌&&◌, ◌||◌, if◌then◌else◌,
}
use sandcastle.Prelude.Int.{pos, int_lt}
use sandcastle.Http.{Cookie, HttpRequest}
use sandcastle.Go.Strings.{cut_prefix}
use sandcastle.Go.Base64.RoundTrip.{IsByte}
use sandcastle.Go.Durations.{billion}
use sandcastle.Auth.Config.{Config, User, test_user, Flow, Outside}
use sandcastle.Auth.Cookies.{session_cookie, random, set_signed, get_signed}

-- Documented behaviour of encoding/json: a value reads back, less the field tagged "-", which no
-- text sets; and a text is bytes.
pub record CodesBack (o : Outside) : Type 0 where
  pub user-back :
      (u : User) → o.unmarshal_user (o.marshal_user u) ≡ some (record u { bearer = false })
  pub user_untagged : (raw : List ℕ) (u : User) → o.unmarshal_user raw ≡ some u → u.bearer ≡ false
  pub user_bytes : (u : User) → All IsByte (o.marshal_user u)
  pub flow-back : (f : Flow) → o.unmarshal_flow (o.marshal_flow f) ≡ some f
  pub flow_bytes : (f : Flow) → All IsByte (o.marshal_flow f)

unfoldable pub is_empty : Str → Bool
is_empty [] = true
is_empty (c ∷ s) = false

-- 8 * time.Hour
abbrev pub session_ttl : ℕ
session_ttl = 28800 * billion

unfoldable pub is_live : ℕ → User → Bool
unfolding is_empty
is_live now u = not (int_lt u.exp (pos now) || (is_empty u.id || is_empty u.csrf))

unfoldable pub live_user : ℕ → Option User → Option User
unfolding is_live
live_user now none = none
live_user now (some u) = if is_live now u then some u else none

-- The test hook, and otherwise the session.
unfoldable pub user_of : Outside → Config → ℕ → HttpRequest → Option Str → Option User
unfolding live_user get_signed is_empty
user_of o c now r (some token) =
    if not (is_empty c.test_token) && str_eq token c.test_token then some test_user else none
user_of o c now r none = live_user now (get_signed o c r session_cookie o.unmarshal_user)

-- User, at a Unix time.
unfoldable pub user : Outside → Config → ℕ → HttpRequest → Option User
unfolding user_of cut_prefix
user o c now r = user_of o c now r (cut_prefix (codes "Bearer ") r.authorization)

-- Issue: the session's user and its cookie, at a Unix time and with 32 random bytes.
unfoldable pub fresh : ℕ → List ℕ → User → User
unfolding random
fresh now bytes u = record u { csrf = random bytes; exp = pos (now + 28800); bearer = false }

unfoldable pub issue : Outside → Config → ℕ → List ℕ → User → User × Cookie
unfolding set_signed fresh
issue o c now bytes u = (
  fresh now bytes u,
  set_signed o c session_cookie (o.marshal_user (fresh now bytes u)) (pos session_ttl),
)
