-- ===== src/Web/Own.antt =====
-- What `mine` and `requestForm` of admin/internal/web/handlers.go show.
use sandcastle.Prelude.{
  ℕ, ◌≡◌, ◌⊎◌, ◌↔◌, inl, inr, refl, sym, ap, ◌∙◌, Bool, true, Option, none, some, List, [], ◌∷◌,
  Str, str_eq, str_eq→eq, eq→str_eq, In, In-keep, keep-In, In-take, In-of-any, take, keep, ==_iff,
  subst, ◌==◌,
}
use sandcastle.Prelude.Sort.{sort, In-sort}
use sandcastle.Policy.Rules.{Workspace}
use sandcastle.Http.{HttpRequest, page, internal}
use sandcastle.Auth.Config.{User}
use sandcastle.Watch.{running}
use sandcastle.Store.Db.{Env, Uuid, Request, Denial}
use sandcastle.Store.Requests.{in_list, selected, has_status, list_requests, list_denials}
use sandcastle.Web.Pages.{mine_page}
use sandcastle.Web.Members.{Site, own_workspaces, parse_one, parse_ids, mine_of, mine}

-- A workspace of the list has the id.
abbrev pub HasId : Env → List Workspace → Uuid → Type 0
HasId env wss u = (w : Workspace) × In w wss × (env.parse_uuid w.id ≡ some u)

later :
    (env : Env) (w : Workspace) (wss : List Workspace) (u : Uuid)
    → HasId env wss u
    → HasId env (w ∷ wss) u
later env w wss u (v, m, e) = (v, inr m, e)

parse_ids_In :
    (env : Env) (wss : List Workspace) (ids : List Uuid) (u : Uuid)
    → parse_ids env wss ≡ some ids
    → In u ids
    → HasId env wss u
unfolding parse_ids parse_one
parse_ids_In env [] ids u h m =
    absurd (let q : [] ≡ ids = cc in let k : In u [] = subst (λ l. In u l) (sym q) m in k)
parse_ids_In env (w ∷ wss) ids u h m =
    go (env.parse_uuid w.id) (parse_ids env wss) refl
      (λ us e k. later env w wss u (parse_ids_In env wss us u e k)) h m
  where
    go :
        (o : Option Uuid) (p : Option (List Uuid))
        → env.parse_uuid w.id ≡ o
        → ((us : List Uuid) → p ≡ some us → In u us → HasId env (w ∷ wss) u)
        → parse_one o p ≡ some ids
        → In u ids
        → HasId env (w ∷ wss) u
    go none p e ih k n = absurd (cc)
    go (some v) none e ih k n = absurd (cc)
    go (some v) (some us) e ih k n =
        let q : v ∷ us ≡ ids = cc in
        elim (subst (λ l. In u l) (sym q) n) [
          | inl a ↦ (w, inl refl, e ∙ ap some (sym a))
          | inr b ↦ ih us refl b
        ]

-- The ids are no uuid[] only where one of them is no uuid.
parse_ids-none :
    (env : Env) (wss : List Workspace)
    → parse_ids env wss ≡ none
    → (w : Workspace) × In w wss × (env.parse_uuid w.id ≡ none)
unfolding parse_ids parse_one
parse_ids-none env [] h = absurd (cc)
parse_ids-none env (w ∷ wss) h =
    go (env.parse_uuid w.id) (parse_ids env wss) refl
      (λ e. let (v, m, k) = parse_ids-none env wss e in (v, inr m, k)) h
  where
    go :
        (o : Option Uuid) (p : Option (List Uuid))
        → env.parse_uuid w.id ≡ o
        → (p ≡ none → (v : Workspace) × In v (w ∷ wss) × (env.parse_uuid v.id ≡ none))
        → parse_one o p ≡ none
        → (v : Workspace) × In v (w ∷ wss) × (env.parse_uuid v.id ≡ none)
    go none p e ih k = (w, inl refl, e)
    go (some v) none e ih k = ih refl
    go (some v) (some us) e ih k = absurd (cc)

in_list_In : (u : Uuid) (us : List Uuid) → in_list u us ≡ true → In u us
unfolding in_list
in_list_In u us h =
    let (v, m, e) = In-of-any (λ v. v == u) us h in subst (λ x. In x us) ((==_iff v u).0 e) m

rows_In :
    {A : Type 0} (lt : A → A → Bool) (p : A → Bool) (n : ℕ) (xs : List A) (a : A)
    → In a (take n (sort lt (keep p xs)))
    → In a xs × (p a ≡ true)
rows_In lt p n xs a m =
    In-keep p a xs ((In-sort lt a (keep p xs)).0 (In-take n a (sort lt (keep p xs)) m))

own_workspaces_iff :
    (s : Site) (u : User) (w : Workspace)
    → In w (own_workspaces s u) ↔ (In w (running s.pods) × (w.owner_id ≡ u.id))
unfolding own_workspaces
own_workspaces_iff s u w = (
  λ m.
      let (a, b) = In-keep (λ ws. str_eq ws.owner_id u.id) w (running s.pods) m in
      (a, str_eq→eq w.owner_id u.id b),
  λ (a, b).
      keep-In (λ ws. str_eq ws.owner_id u.id) w (running s.pods) a (eq→str_eq w.owner_id u.id b),
)

module _ (s : Site) (r : HttpRequest) (u : User) where
  -- The rows that a user may see: of the user's own workspaces.
  abbrev pub IsOwn : Uuid → Type 0
  IsOwn id =
      (w : Workspace) × In w (running s.pods)
      × (w.owner_id ≡ u.id)
      × (s.env.parse_uuid w.id ≡ some id)

  IsOwn-of_HasId : (id : Uuid) → HasId s.env (own_workspaces s u) id → IsOwn id
  IsOwn-of_HasId id (w, m, e) = let (a, b) = (own_workspaces_iff s u w).0 m in (w, a, b, e)

  -- The page "mine" shows the user's own running workspaces, and of denials and requests only rows of
  -- those; there is no page only where one of those workspaces has an id that is no uuid.
  pub mine-IsOwn :
      ((mine s r u ≡ internal)
        × ((w : Workspace) × In w (own_workspaces s u) × (s.env.parse_uuid w.id ≡ none)))
      ⊎ ((ds : List Denial) × (qs : List Request) × (nm : _) × (fl : Str) × (mine s r u
            ≡ page (mine_page u (own_workspaces s u) ds qs nm fl))
          × ((w : Workspace)
              → In w (own_workspaces s u) ↔ (In w (running s.pods) × (w.owner_id ≡ u.id)))
          × ((d : Denial) → In d ds → In d (s.reads 0).denials × IsOwn d.workspace_id)
          × ((q : Request) → In q qs → In q (s.reads 1).requests × IsOwn q.workspace_id))
  unfolding mine mine_of list_denials list_requests selected has_status
  mine-IsOwn = go (parse_ids s.env (own_workspaces s u)) refl
    where
      row :
          (ids : List Uuid) (id : Uuid)
          → parse_ids s.env (own_workspaces s u) ≡ some ids
          → in_list id ids ≡ true
          → IsOwn id
      row ids id e h =
          IsOwn-of_HasId id (parse_ids_In s.env (own_workspaces s u) ids id e (in_list_In id ids h))

      go :
          (o : Option (List Uuid))
          → parse_ids s.env (own_workspaces s u) ≡ o
          → ((mine_of s r u o ≡ internal)
              × ((w : Workspace) × In w (own_workspaces s u) × (s.env.parse_uuid w.id ≡ none)))
            ⊎ ((ds : List Denial) × (qs : List Request) × (nm : _) × (fl : Str) × (mine_of s r u o
                  ≡ page (mine_page u (own_workspaces s u) ds qs nm fl))
                × ((w : Workspace)
                    → In w (own_workspaces s u) ↔ (In w (running s.pods) × (w.owner_id ≡ u.id)))
                × ((d : Denial) → In d ds → In d (s.reads 0).denials × IsOwn d.workspace_id)
                × ((q : Request) → In q qs → In q (s.reads 1).requests × IsOwn q.workspace_id))
      go none e = inl (refl, parse_ids-none s.env (own_workspaces s u) e)
      go (some ids) e = inr (
        _,
        _,
        _,
        _,
        refl,
        own_workspaces_iff s u,
        λ d m.
            let (a, b) = rows_In _ (λ x. in_list x.workspace_id ids) 200 (s.reads 0).denials d m in
            (a, row ids d.workspace_id e b),
        λ q m.
            let (a, b) = rows_In _ (λ x. in_list x.workspace_id ids) 200 (s.reads 1).requests q m in
            (a, row ids q.workspace_id e b),
      )
