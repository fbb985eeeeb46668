-- ===== src/Auth/Login.antt =====
-- `Login`, `localPath`, `Callback`, `Logout` and `me` of admin/internal/auth/auth.go.
use sandcastle.Prelude.{
  ℕ, ◌+◌, ◌*◌, ◌≡◌, refl, ap, ◌∙◌, Option, none, some, List, [], ◌∷◌, ◌++◌, Str, codes, str_eq,
  Bool, true, false, not, ◌&&◌, ◌||◌, ◌==◌, ltb, any, arith, if◌then◌else◌,
}
use sandcastle.Prelude.Affix.{has_prefix}
use sandcastle.Prelude.Int.{ℤ, pos, negsuc, int_lt}
use sandcastle.Http.{Cookie, HttpRequest, Response, found, bad_request, bad_gateway, or_empty}
use sandcastle.Go.Strings.{cut_prefix, trim_right}
use sandcastle.Go.Durations.{billion, whole_seconds}
use sandcastle.Auth.Config.{Config, User, no_user, Flow, no_flow, Url, Me, Outside}
use sandcastle.Auth.Cookies.{
  session_cookie, flow_cookie, random, set_signed, opened, decoded, get_signed, opened-sign,
}
use sandcastle.Auth.Session.{CodesBack, is_empty, is_live, live_user, user_of, user, issue}

-- A control character or a backslash.
unfoldable pub is_unsafe : ℕ → Bool
is_unsafe c = ltb c 0x20 || (c == 0x7f || c == 92)

unfoldable pub local_url : Str → Option Url → Bool
unfolding is_empty is_unsafe
local_url next none = false
local_url next (some u) =
    is_empty u.scheme
    && (is_empty u.host
        && (has_prefix u.path (codes "/")
            && (not (has_prefix u.path (codes "//")) && not (any is_unsafe (next ++ u.path)))))

-- localPath
unfoldable pub local_path : Outside → Str → Bool
unfolding local_url
local_path o next = local_url next (o.parse_url next)

-- Where to go after logging in.
unfoldable pub next_of : Outside → HttpRequest → Str
unfolding local_path or_empty
next_of o r =
    if local_path o (or_empty (r.query (codes "next")))
    then or_empty (r.query (codes "next"))
    else codes "/"

unfoldable pub new_flow : Outside → ℕ → List ℕ → Str → HttpRequest → Flow
unfolding next_of random
new_flow o now bytes verifier r = record {
  state = random bytes;
  verifier = verifier;
  next = next_of o r;
  exp = pos (now + 600);
}

-- 10 * time.Minute
abbrev pub flow_ttl : ℕ
flow_ttl = 600 * billion

-- The cookie of a flow.
unfoldable pub flow_signed : Outside → Config → Flow → ℤ → Cookie
unfolding set_signed
flow_signed o c f ttl = set_signed o c flow_cookie (o.marshal_flow f) ttl

-- Login, with 32 random bytes and a generated verifier.
unfoldable pub login : {P : Type 0} → Outside → Config → ℕ → List ℕ → Str → HttpRequest → Response P
unfolding new_flow flow_signed
login o c now bytes verifier r =
    found (flow_signed o c (new_flow o now bytes verifier r) (pos flow_ttl) ∷ [])
      (o.auth_code_url c (new_flow o now bytes verifier r).state verifier)

unfoldable pub is_admin_role : Str → Bool
is_admin_role role = str_eq role (codes "owner") || str_eq role (codes "user-admin")

-- The loop over the roles.
unfoldable pub with_roles : List Str → User → User
unfolding is_admin_role
with_roles [] u = u
with_roles (role ∷ roles) u =
    with_roles roles (if is_admin_role role then record u { admin = true } else u)

unfoldable pub user_from : Option Me → Option User
unfolding with_roles is_empty
user_from none = none
user_from (some m) =
    if is_empty m.id
    then none
    else some (with_roles m.roles (record no_user { id = m.id; name = m.username }))

unfoldable pub from_reply : Option (ℕ × Option Me) → Option User
unfolding user_from
from_reply none = none
from_reply (some (status, body)) = if status == 200 then user_from body else none

-- me
unfoldable pub me : Outside → Config → Str → Option User
unfolding from_reply trim_right
me o c token = from_reply (
    o.fetch (trim_right (λ x. x == b'/') c.coder_internal_url ++ codes "/api/v2/users/me")
      (codes "Bearer " ++ token))

-- What follows the exchange of the code.
unfoldable pub signed_in :
    {P : Type 0} → Outside → Config → ℕ → List ℕ → Flow → Option User → Response P
unfolding issue flow_signed
signed_in o c now bytes f none = bad_gateway (flow_signed o c no_flow (negsuc 0) ∷ [])
signed_in o c now bytes f (some u) =
    found (flow_signed o c no_flow (negsuc 0) ∷ (issue o c now bytes u).1 ∷ []) f.next

unfoldable pub exchanged :
    {P : Type 0} → Outside → Config → ℕ → List ℕ → Flow → Option Str → Response P
unfolding signed_in me
exchanged o c now bytes f none = bad_gateway (flow_signed o c no_flow (negsuc 0) ∷ [])
exchanged o c now bytes f (some token) = signed_in o c now bytes f (me o c token)

unfoldable pub with_flow :
    {P : Type 0} → Outside → Config → ℕ → List ℕ → HttpRequest → Option Flow → Response P
unfolding exchanged or_empty
with_flow o c now bytes r none = bad_request
with_flow o c now bytes r (some f) =
    if int_lt f.exp (pos now) || not (str_eq (or_empty (r.query (codes "state"))) f.state)
    then bad_request
    else exchanged o c now bytes f (o.exchange c (or_empty (r.query (codes "code"))) f.verifier)

-- Callback
unfoldable pub callback : {P : Type 0} → Outside → Config → ℕ → List ℕ → HttpRequest → Response P
unfolding with_flow get_signed
callback o c now bytes r = with_flow o c now bytes r (get_signed o c r flow_cookie o.unmarshal_flow)

-- Logout
unfoldable pub logged_out : Outside → Config → Cookie
unfolding set_signed
logged_out o c = set_signed o c session_cookie (o.marshal_user no_user) (negsuc 0)

unfoldable pub logout : {P : Type 0} → Outside → Config → Response P
unfolding logged_out
logout o c = found (logged_out o c ∷ []) (codes "/")

-- The cookie that Logout sets is nobody's; -1 is a nanosecond, so it has no lifetime in seconds,
-- and a browser keeps it.
pub user-logged_out :
    (o : Outside) (c : Config) (now : ℕ) (r : HttpRequest)
    → CodesBack o
    → cut_prefix (codes "Bearer ") r.authorization ≡ none
    → r.cookie session_cookie ≡ some (logged_out o c).value
    → (user o c now r ≡ none) × ((logged_out o c).max_age ≡ pos 0)
unfolding user user_of logged_out set_signed get_signed live_user whole_seconds is_live is_empty
user-logged_out o c now r back h k =
    let opens : opened o c session_cookie (r.cookie session_cookie)
        ≡ some (o.marshal_user no_user) =
      ap (λ v. opened o c session_cookie v) k
      ∙ opened-sign o c session_cookie _ (back.user_bytes no_user) in
    (
      ap (λ p. user_of o c now r p) h
          ∙ (ap (λ p. live_user now (decoded o.unmarshal_user p)) opens
              ∙ (ap (λ p. live_user now p) (back.user-back no_user) ∙ expired)),
      refl,
    )
  where
    expired : live_user now (some no_user) ≡ none
    expired = ground arith
