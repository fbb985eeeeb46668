-- ===== src/Auth/Gate.antt =====
-- `Require` of admin/internal/auth/auth.go.
use sandcastle.Prelude.{
  ℕ, ◌≡◌, ◌⊎◌, inl, inr, refl, Option, none, some, [], ◌++◌, codes, str_eq, Bool, true, false, not,
  ◌&&◌, ◌||◌, Bool-cases, str_eq→eq, if◌then◌else◌, arith,
}
use sandcastle.Http.{HttpRequest, Response, found, unauthorized, forbidden}
use sandcastle.Go.Url.{query_escape}
use sandcastle.Auth.Config.{Config, User, Outside}
use sandcastle.Auth.Session.{user}

-- Without a user: a GET is sent to log in, and to come back.
unfoldable pub no_login : {P : Type 0} → HttpRequest → Response P
no_login r =
    if str_eq r.method (codes "GET")
    then found [] (codes "/login?next=" ++ query_escape r.uri)
    else unauthorized

-- The conditions under which a user is refused.
unfoldable pub lacks_csrf : HttpRequest → User → Bool
lacks_csrf r u =
    not (str_eq r.method (codes "GET"))
    && not (str_eq r.method (codes "HEAD"))
    && (not u.bearer && not (str_eq (r.form (codes "csrf")) u.csrf))

-- Require, over a handler and the way in which a refusal is its answer.
unfoldable pub admit :
    {P A : Type 0}
    → (Response P → A)
    → Bool
    → (HttpRequest → User → A)
    → HttpRequest
    → Option User
    → A
unfolding no_login lacks_csrf
admit refuse admin h r none = refuse (no_login r)
admit refuse admin h r (some u) =
    if (admin && not u.admin) || lacks_csrf r u then refuse forbidden else h r u

unfoldable pub require :
    {P A : Type 0}
    → (Response P → A)
    → Outside
    → Config
    → ℕ
    → Bool
    → (HttpRequest → User → A)
    → HttpRequest
    → A
unfolding admit
require refuse o c now admin h r = admit refuse admin h r (user o c now r)

-- The token of the session in the form, where the method is neither GET nor HEAD, or the bearer.
abbrev pub IsIntended : HttpRequest → User → Type 0
IsIntended r u =
    (r.method ≡ codes "GET")
    ⊎ (r.method ≡ codes "HEAD")
    ⊎ (u.bearer ≡ true)
    ⊎ (r.form (codes "csrf") ≡ u.csrf)

abbrev pub Passes : Outside → Config → ℕ → Bool → HttpRequest → User → Type 0
Passes o c now admin r u =
    (user o c now r ≡ some u) × ((admin ≡ false) ⊎ (u.admin ≡ true)) × IsIntended r u

has_csrf : (r : HttpRequest) (u : User) → lacks_csrf r u ≡ false → IsIntended r u
unfolding lacks_csrf
has_csrf r u h = elim (Bool-cases (str_eq r.method (codes "GET"))) [
  | inl p ↦ inl (str_eq→eq _ _ p)
  | inr p ↦ elim (Bool-cases (str_eq r.method (codes "HEAD"))) [
    | inl q ↦ inr (inl (str_eq→eq _ _ q))
    | inr q ↦ elim (Bool-cases (str_eq (r.form (codes "csrf")) u.csrf)) [
      | inl s ↦ inr (inr (inr (str_eq→eq _ _ s)))
      | inr s ↦ inr (inr (inl (ground arith)))
    ]
  ]
]

-- Require answers without the handler, with a way to log in or a refusal, or the request passed and the answer is the handler's.
pub require-Passes :
    {P A : Type 0} (refuse : Response P → A) (o : Outside) (c : Config) (now : ℕ) (admin : Bool)
    (h : HttpRequest → User → A) (r : HttpRequest)
    → ((resp : Response P) × ((resp ≡ no_login r) ⊎ (resp ≡ forbidden))
        × (require refuse o c now admin h r ≡ refuse resp))
      ⊎ ((u : User) × Passes o c now admin r u × (require refuse o c now admin h r ≡ h r u))
unfolding require admit
require-Passes {P} {A} refuse o c now admin h r = go (user o c now r) refl
  where
    go :
        (p : Option User)
        → user o c now r ≡ p
        → ((resp : Response P) × ((resp ≡ no_login r) ⊎ (resp ≡ forbidden))
            × (admit refuse admin h r p ≡ refuse resp))
          ⊎ ((u : User) × Passes o c now admin r u × (admit refuse admin h r p ≡ h r u))
    go none e = inl (no_login r, inl refl, refl)
    go (some u) e = elim (Bool-cases ((admin && not u.admin) || lacks_csrf r u)) [
      | inl q ↦ inl (forbidden, inr refl, rw q refl)
      | inr q ↦ inr (u, (e, ground arith, has_csrf r u (ground arith)), rw q refl)
    ]
