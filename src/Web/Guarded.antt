-- ===== src/Web/Guarded.antt =====
-- Which requests to the routes of admin/internal/web/web.go may change the database.
use sandcastle.Prelude.{
  ◌≡◌, ◌⊎◌, inl, inr, refl, sym, ap, ◌∙◌, Bool, true, false, Option, none, some, List, [], ◌∷◌, Str,
  codes, str_eq, str_eq→eq, Bool-cases, arith, In, All, All-In, subst,
}
use sandcastle.Policy.Rules.{Workspace}
use sandcastle.Http.{HttpRequest}
use sandcastle.Auth.Config.{User, no_user}
use sandcastle.Auth.Session.{user}
use sandcastle.Auth.Gate.{IsIntended, require-Passes}
use sandcastle.Watch.{by_id}
use sandcastle.Store.Db.{Db}
use sandcastle.Web.Forms.{Answer}
use sandcastle.Web.Members.{Site, reply, file}
use sandcastle.Web.Filed.{SamePolicy, file_writes}
use sandcastle.Web.Routes.{
  Gate, everyone, users, admins, Action, files, approves, denies, creates, clones, renames, deletes,
  defaults, adds_rule, removes_rule, assigns, grants, Route, routes, serves_method, route_match,
  find_route, perform, guarded, enter, dispatch, serve,
}

-- The actions that only read.
abbrev reads_only : Action → Bool
reads_only files = false
reads_only approves = false
reads_only denies = false
reads_only creates = false
reads_only clones = false
reads_only renames = false
reads_only deletes = false
reads_only defaults = false
reads_only adds_rule = false
reads_only removes_rule = false
reads_only assigns = false
reads_only grants = false
reads_only _ = true

perform_reads :
    (s : Site) (a : Action) (id : Str) (db : Db) (r : HttpRequest) (u : User)
    → reads_only a ≡ true
    → (perform s a id db r u).db ≡ db
unfolding perform reply
perform_reads s a id db r u h = ground arith

-- A route whose action writes is a POST for administrators, or it files requests.
unfoldable Fits : Route → Type 0
Fits t =
    (reads_only t.action ≡ true)
    ⊎ ((t.method ≡ codes "POST") × ((t.gate ≡ admins) ⊎ ((t.gate ≡ users) × (t.action ≡ files))))

routes-All : All Fits routes
unfolding routes Fits
routes-All = ground arith

matched :
    (t : Route) (r : HttpRequest) (id : Str) → route_match t r ≡ some id → serves_method t r ≡ true
unfolding route_match
matched t r id h = elim (Bool-cases (serves_method t r)) [
  | inl p ↦ p
  | inr p ↦ absurd (let k : none ≡ some id = rw p at h in cc)
]

pub find_route_In :
    (ts : List Route) (r : HttpRequest) (t : Route) (id : Str)
    → find_route ts r ≡ some (t, id)
    → In t ts × (serves_method t r ≡ true)
unfolding find_route
find_route_In [] r t id h = absurd (cc)
find_route_In (x ∷ ts) r t id h =
    go (route_match x r) refl (λ k. let (m, q) = find_route_In ts r t id k in (inr m, q)) h
  where
    go :
        (o : Option Str)
        → route_match x r ≡ o
        → (find_route ts r ≡ some (t, id) → In t (x ∷ ts) × (serves_method t r ≡ true))
        → elim o as (λ _. Option (Route × Str)) [ some i ↦ some (x, i) | none ↦ find_route ts r ]
          ≡ some (t, id)
        → In t (x ∷ ts) × (serves_method t r ≡ true)
    go none e ih k = ih k
    go (some i) e ih k =
        let q : x ≡ t = cc in
        (inl (sym q), subst (λ y. serves_method y r ≡ true) q (matched x r i e))

-- Who may change what.
abbrev pub MayWrite : Site → HttpRequest → User → Db → Db → Type 0
MayWrite s r u db d =
    (r.method ≡ codes "POST")
    × (user s.outside s.config s.now r ≡ some u)
    × IsIntended r u
    × ((u.admin ≡ true)
        ⊎ ((ws : Workspace) × (by_id (r.form (codes "ws")) s.pods ≡ some ws)
            × (ws.owner_id ≡ u.id)
            × SamePolicy db d))

module _ (s : Site) (db : Db) (r : HttpRequest) where
  -- What Require lets through for a writing action.
  guarded_writes :
      (admin : Bool) (a : Action) (id : Str)
      → r.method ≡ codes "POST"
      → ((admin ≡ true) ⊎ (a ≡ files))
      → ((guarded s admin a id db r).db ≡ db)
        ⊎ ((u : User) × MayWrite s r u db (guarded s admin a id db r).db)
  unfolding guarded reply perform
  guarded_writes admin a id m g =
      elim (require-Passes (reply db) s.outside s.config s.now admin (perform s a id db) r) [
        | inl (resp, k, e) ↦ inl (ap (λ (y : Answer). y.db) e)
        | inr (u, (h, ad, i), e) ↦
            let d = ap (λ (y : Answer). y.db) e in
            elim g [
              | inl q ↦ inr (u, (m, h, i, inl (ground arith)))
              | inr q ↦
                  let f : perform s a id db r u ≡ file s r u db = filing u a id q in
                  elim (file_writes s r u db) [
                    | inl k ↦ inl (d ∙ ap (λ (y : Answer). y.db) f ∙ k)
                    | inr (ws, w, o, k) ↦
                        let same =
                          subst (λ y. SamePolicy db y) (sym (d ∙ ap (λ (y : Answer). y.db) f)) k in
                        inr (u, (m, h, i, elim o [ inl x ↦ inl x | inr x ↦ inr (ws, w, x, same) ]))
                  ]
            ]
      ]
    where
      filing :
          (u : User) (a : Action) (id : Str) → a ≡ files → perform s a id db r u ≡ file s r u db
      filing u a id q = ap (λ b. perform s b id db r u) q

  -- What Require lets through for a reading action.
  guarded_reads :
      (admin : Bool) (a : Action) (id : Str)
      → reads_only a ≡ true
      → (guarded s admin a id db r).db ≡ db
  unfolding guarded reply
  guarded_reads admin a id h =
      elim (require-Passes (reply db) s.outside s.config s.now admin (perform s a id db) r) [
        | inl (resp, k, e) ↦ ap (λ (y : Answer). y.db) e
        | inr (u, p, e) ↦ ap (λ (y : Answer). y.db) e ∙ perform_reads s a id db r u h
      ]

  enter_reads :
      (g : Gate) (a : Action) (id : Str) → reads_only a ≡ true → (enter s g a id db r).db ≡ db
  unfolding enter
  enter_reads everyone a id h = perform_reads s a id db r no_user h
  enter_reads users a id h = guarded_reads false a id h
  enter_reads admins a id h = guarded_reads true a id h

  enter_writes :
      (g : Gate) (a : Action) (id : Str)
      → r.method ≡ codes "POST"
      → ((g ≡ admins) ⊎ ((g ≡ users) × (a ≡ files)))
      → ((enter s g a id db r).db ≡ db) ⊎ ((u : User) × MayWrite s r u db (enter s g a id db r).db)
  unfolding enter
  enter_writes everyone a id m h = absurd (ground arith)
  enter_writes users a id m h = guarded_writes false a id m (ground arith)
  enter_writes admins a id m h = guarded_writes true a id m (inl refl)

  post_only :
      (t : Route) → serves_method t r ≡ true → t.method ≡ codes "POST" → r.method ≡ codes "POST"
  unfolding serves_method codes str_eq
  post_only t h m =
      let k : str_eq t.method (codes "GET") ≡ false = ap (λ x. str_eq x (codes "GET")) m in
      str_eq→eq r.method t.method (ground arith) ∙ m

-- A request changes nothing, or it is a POST, whose sender is known and brings the CSRF token of the
-- session or the bearer token, and who is an administrator, or the owner of the running workspace
-- that the form names, and then changes requests and the audit log alone.
pub serve_writes :
    (s : Site) (db : Db) (r : HttpRequest)
    → ((serve s db r).db ≡ db) ⊎ ((u : User) × MayWrite s r u db (serve s db r).db)
unfolding serve dispatch reply Fits
serve_writes s db r = go (find_route routes r) refl
  where
    go :
        (o : Option (Route × Str))
        → find_route routes r ≡ o
        → ((dispatch s db r o).db ≡ db) ⊎ ((u : User) × MayWrite s r u db (dispatch s db r o).db)
    go none e = inl refl
    go (some (t, id)) e =
        let (m, q) = find_route_In routes r t id e in
        elim (All-In Fits t routes routes-All m) [
          | inl h ↦ inl (enter_reads s db r t.gate t.action id h)
          | inr (p, g) ↦ enter_writes s db r t.gate t.action id (post_only s db r t q p) g
        ]
