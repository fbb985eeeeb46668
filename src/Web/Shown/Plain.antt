-- ===== src/Web/Shown/Plain.antt =====
-- Which handlers of admin/internal/web show a page at all.
use sandcastle.Prelude.{
  ◌≡◌, inl, inr, refl, Bool, true, false, not, ◌||◌, Option, none, some, [], Str, codes, Bool-cases,
  if◌then◌else◌, ℕ, str_eq,
}
use sandcastle.Prelude.Int.{pos, int_lt}
use sandcastle.Policy.Rules.{Workspace}
use sandcastle.Http.{HttpRequest, Response, found, page, bad_request, or_empty}
use sandcastle.Auth.Config.{User, Flow}
use sandcastle.Auth.Login.{login, logout, callback, with_flow, exchanged, signed_in, me}
use sandcastle.Store.Db.{Uuid, Db, conflict, invalid, not_found, other, Result, ok, err}
use sandcastle.Web.Pages.{Page}
use sandcastle.Web.Forms.{Answer, finish, status_of, ttl_for, approve, deny}
use sandcastle.Web.Members.{Site, reply, home, owns, filed, file_for, file}
use sandcastle.Web.Admins.{
  create, clone, rename, delete, make_default, add_to_zone, remove_rule, assign_zone, grant_to,
}
use sandcastle.Web.Routes.{
  Action, healthz, logs_in, returns, logs_out, goes_home, shows_form, files, shows_own, shows_queue,
  approves, denies, shows_zones, creates, clones, renames, deletes, defaults, adds_rule,
  removes_rule, shows_workspaces, assigns, grants, shows_audit, perform,
}

unfoldable pub is_page : Response Page → Bool
is_page (page p) = true
is_page _ = false

-- The actions that show a page of everyone's workspaces, the zones or the audit log.
abbrev pub shows_all : Action → Bool
shows_all shows_queue = true
shows_all shows_zones = true
shows_all shows_workspaces = true
shows_all shows_audit = true
shows_all _ = false

-- The actions that show a page of a user.
abbrev pub shows_mine : Action → Bool
shows_mine shows_form = true
shows_mine shows_own = true
shows_mine _ = false

abbrev pub shows_page : Action → Bool
shows_page a = shows_all a || shows_mine a

finish_plain : {A : Type 0} (to : Str) (r : Result A × Db) → is_page (finish to r).response ≡ false
unfolding finish is_page status_of
finish_plain to (ok a, d) = refl
finish_plain to (err conflict, d) = refl
finish_plain to (err invalid, d) = refl
finish_plain to (err not_found, d) = refl
finish_plain to (err other, d) = refl

filed_plain : (s : Site) (r : Result Uuid × Db) → is_page (filed s.env r).response ≡ false
unfolding filed
filed_plain s (ok a, d) = finish_plain {A = Uuid} _ (ok a, d)
filed_plain s (err e, d) = finish_plain {A = Uuid} [] (err e, d)

pub if_plain :
    (b : Bool) (x y : Response Page)
    → is_page x ≡ false
    → is_page y ≡ false
    → is_page (if b then x else y) ≡ false
if_plain true x y h k = h
if_plain false x y h k = k

module _ (s : Site) (db : Db) (r : HttpRequest) where
  signed_in_plain :
      (f : Flow) (u : Option User)
      → is_page (signed_in s.outside s.config s.now s.bytes f u) ≡ false
  unfolding signed_in is_page
  signed_in_plain f none = refl
  signed_in_plain f (some u) = refl

  exchanged_plain :
      (f : Flow) (token : Option Str)
      → is_page (exchanged s.outside s.config s.now s.bytes f token) ≡ false
  unfolding exchanged is_page
  exchanged_plain f none = refl
  exchanged_plain f (some token) = signed_in_plain f (me s.outside s.config token)

  with_flow_plain :
      (f : Option Flow) → is_page (with_flow s.outside s.config s.now s.bytes r f) ≡ false
  unfolding with_flow is_page
  with_flow_plain none = refl
  with_flow_plain (some f) =
      if_plain
        (int_lt f.exp (pos s.now) || not (str_eq (or_empty (r.query (codes "state"))) f.state))
        bad_request
        (exchanged s.outside s.config s.now s.bytes f
          (s.outside.exchange s.config (or_empty (r.query (codes "code"))) f.verifier))
        refl
        (exchanged_plain f
          (s.outside.exchange s.config (or_empty (r.query (codes "code"))) f.verifier))

  callback_plain : is_page (callback s.outside s.config s.now s.bytes r) ≡ false
  unfolding callback
  callback_plain = with_flow_plain _

  file_for_plain :
      (u : User) (ws : Option Workspace) → is_page (file_for s r u db ws).response ≡ false
  unfolding file_for reply is_page
  file_for_plain u none = refl
  file_for_plain u (some ws) = elim (Bool-cases (owns u ws)) [
    | inl e ↦ rw e (filed_plain s _)
    | inr e ↦ rw e refl
  ]

  with_ttl_plain :
      (o : Result ℕ) (to : Str) (call : ℕ → Result (Unit {0}) × Db)
      → is_page
          (elim o as (λ _. Answer) [
            | ok ttl ↦ finish to (call ttl)
            | err e ↦ finish {A = Unit {0}} to (err e, db)
          ]).response
        ≡ false
  with_ttl_plain (ok ttl) to call = finish_plain to (call ttl)
  with_ttl_plain (err e) to call = finish_plain {A = Unit {0}} to (err e, db)

  pub perform_plain :
      (u : User) (a : Action) (id : Str)
      → shows_page a ≡ false
      → is_page (perform s a id db r u).response ≡ false
  unfolding perform reply approve deny create clone rename delete make_default add_to_zone
      remove_rule assign_zone grant_to file home login logout is_page
  perform_plain u healthz id h = refl
  perform_plain u logs_in id h = refl
  perform_plain u returns id h = callback_plain
  perform_plain u logs_out id h = refl
  perform_plain u goes_home id h = if_plain u.admin (found [] _) (found [] _) refl refl
  perform_plain u shows_form id h = absurd (cc)
  perform_plain u files id h = file_for_plain u _
  perform_plain u shows_own id h = absurd (cc)
  perform_plain u approves id h = with_ttl_plain (ttl_for r.form u) _ _
  perform_plain u grants id h = with_ttl_plain (ttl_for r.form u) _ _
  perform_plain u denies id h = finish_plain _ _
  perform_plain u creates id h = finish_plain _ _
  perform_plain u clones id h = finish_plain _ _
  perform_plain u renames id h = finish_plain _ _
  perform_plain u deletes id h = finish_plain _ _
  perform_plain u defaults id h = finish_plain _ _
  perform_plain u adds_rule id h = finish_plain _ _
  perform_plain u removes_rule id h = finish_plain _ _
  perform_plain u assigns id h = finish_plain _ _
  perform_plain u shows_queue id h = absurd (cc)
  perform_plain u shows_zones id h = absurd (cc)
  perform_plain u shows_workspaces id h = absurd (cc)
  perform_plain u shows_audit id h = absurd (cc)
