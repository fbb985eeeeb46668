-- ===== src/Web/Signals.antt =====
-- The signals for a rebuild that the handlers of admin/internal/web give.
use sandcastle.Prelude.{
  ℕ, ◌≡◌, inl, inr, refl, sym, ap, ◌∙◌, Bool, true, false, Option, none, some, Str, codes,
  Bool-cases,
}
use sandcastle.Prelude.Int.{pos}
use sandcastle.Policy.Rules.{Rule, Workspace, valid_rule}
use sandcastle.Http.{HttpRequest}
use sandcastle.Auth.Config.{User, no_user}
use sandcastle.Auth.Gate.{require-Passes}
use sandcastle.Watch.{by_id}
use sandcastle.Store.Db.{Uuid, Db, Error, Result, ok, err}
use sandcastle.Store.Zones.{create_zone, clone_zone, rename_zone, delete_zone, set_default_zone}
use sandcastle.Store.Zones
use sandcastle.Store.Rules.{add_zone_rule, delete_rule, grant_rule}
use sandcastle.Store.Requests.{host_rule, file_request, decide}
use sandcastle.Web.Forms.{Answer, finish, ttl_for, approve, deny, run_tx_err}
use sandcastle.Web.Members.{Site, reply, rule_from, owns, filed, file_for, file}
use sandcastle.Web.Admins.{
  create, clone, rename, delete, make_default, add_to_zone, remove_rule, assign_zone, grant_to,
}
use sandcastle.Web.Routes.{
  Gate, everyone, users, admins, Action, healthz, logs_in, returns, logs_out, goes_home, shows_form,
  files, shows_own, shows_queue, approves, denies, shows_zones, creates, clones, renames, deletes,
  defaults, adds_rule, removes_rule, shows_workspaces, assigns, grants, shows_audit, Route, routes,
  find_route, perform, guarded, enter, dispatch, serve,
}

-- A call of the store that fails leaves the database as it was.
abbrev RollsBack : {A : Type 0} → Db → Result A × Db → Type 0
RollsBack db r = (e : Error) → r.0 ≡ err e → r.1 ≡ db

-- An answer that signals nothing has changed nothing.
abbrev IsQuiet : Db → Answer → Type 0
IsQuiet db a = a.changed ≡ false → a.db ≡ db

finish-IsQuiet :
    {A : Type 0} (to : Str) (db : Db) (r : Result A × Db)
    → RollsBack db r
    → IsQuiet db (finish to r)
unfolding finish
finish-IsQuiet to db (ok a, d) h c = absurd (cc)
finish-IsQuiet to db (err e, d) h c = h e refl

filed-IsQuiet :
    (s : Site) (db : Db) (r : Result Uuid × Db) → RollsBack db r → IsQuiet db (filed s.env r)
unfolding filed finish
filed-IsQuiet s db (ok a, d) h c = absurd (cc)
filed-IsQuiet s db (err e, d) h c = h e refl

module _ (s : Site) (db : Db) (r : HttpRequest) (u : User) where
  file_request-RollsBack :
      (ws host : Str) (port : _) (why : Str)
      → RollsBack db (file_request s.env u.name ws host port why db)
  unfolding file_request
  file_request-RollsBack ws host port why = elim (Bool-cases (valid_rule (host_rule host port))) [
    | inl e ↦ rw e (λ x h. run_tx_err _ db x h)
    | inr e ↦ rw e (λ x h. refl)
  ]

  add_zone_rule-RollsBack :
      (id : Str) (rule : Rule) → RollsBack db (add_zone_rule s.env u.name id rule db)
  unfolding add_zone_rule
  add_zone_rule-RollsBack id rule = elim (Bool-cases (valid_rule rule)) [
    | inl e ↦ rw e (λ x h. run_tx_err _ db x h)
    | inr e ↦ rw e (λ x h. refl)
  ]

  file-IsQuiet : IsQuiet db (file s r u db)
  unfolding file file_for reply
  file-IsQuiet = go (by_id (r.form (codes "ws")) s.pods)
    where
      go : (o : Option Workspace) → IsQuiet db (file_for s r u db o)
      go none = λ c. refl
      go (some ws) = elim (Bool-cases (owns u ws)) [
        | inl e ↦ rw e (filed-IsQuiet s db _ (file_request-RollsBack ws.id _ _ _))
        | inr e ↦ rw e (λ c. refl)
      ]

  approve-IsQuiet : (id : Str) → IsQuiet db (approve s.env r.form u id db)
  unfolding approve decide
  approve-IsQuiet id = go (ttl_for r.form u)
    where
      go :
          (o : Result ℕ)
          → IsQuiet db (elim o as (λ _. Answer) [
            | ok ttl ↦ finish (codes "/queue") (decide s.env u.name id true (pos ttl) db)
            | err e ↦ finish {A = Unit {0}} (codes "/queue") (err e, db)
          ])
      go (ok ttl) = finish-IsQuiet _ db _ (λ e h. run_tx_err _ db e h)
      go (err x) = finish-IsQuiet {A = Unit {0}} _ db (err x, db) (λ e h. refl)

  grant_to-IsQuiet : (id : Str) → IsQuiet db (grant_to s r u id db)
  unfolding grant_to grant_rule
  grant_to-IsQuiet id = go (ttl_for r.form u)
    where
      go :
          (o : Result ℕ)
          → IsQuiet db (elim o as (λ _. Answer) [
            | ok ttl ↦
                finish
                  (codes "/workspaces")
                  (grant_rule s.env u.name id (rule_from s r) (pos ttl) db)
            | err e ↦ finish {A = Unit {0}} (codes "/workspaces") (err e, db)
          ])
      go (ok ttl) = finish-IsQuiet _ db _ (λ e h. run_tx_err _ db e h)
      go (err x) = finish-IsQuiet {A = Unit {0}} _ db (err x, db) (λ e h. refl)

  perform-IsQuiet : (a : Action) (id : Str) → IsQuiet db (perform s a id db r u)
  unfolding perform reply deny decide create create_zone clone clone_zone rename rename_zone delete
      delete_zone make_default set_default_zone add_to_zone remove_rule delete_rule assign_zone
      Zones.assign
  perform-IsQuiet files id = file-IsQuiet
  perform-IsQuiet approves id = approve-IsQuiet id
  perform-IsQuiet grants id = grant_to-IsQuiet id
  perform-IsQuiet denies id = finish-IsQuiet _ db _ (λ e h. run_tx_err _ db e h)
  perform-IsQuiet creates id = finish-IsQuiet _ db _ (λ e h. run_tx_err _ db e h)
  perform-IsQuiet clones id = finish-IsQuiet _ db _ (λ e h. run_tx_err _ db e h)
  perform-IsQuiet renames id = finish-IsQuiet _ db _ (λ e h. run_tx_err _ db e h)
  perform-IsQuiet deletes id = finish-IsQuiet _ db _ (λ e h. run_tx_err _ db e h)
  perform-IsQuiet defaults id = finish-IsQuiet _ db _ (λ e h. run_tx_err _ db e h)
  perform-IsQuiet adds_rule id = finish-IsQuiet _ db _ (add_zone_rule-RollsBack id (rule_from s r))
  perform-IsQuiet removes_rule id = finish-IsQuiet _ db _ (λ e h. run_tx_err _ db e h)
  perform-IsQuiet assigns id = finish-IsQuiet _ db _ (λ e h. run_tx_err _ db e h)
  perform-IsQuiet healthz id = λ c. refl
  perform-IsQuiet logs_in id = λ c. refl
  perform-IsQuiet returns id = λ c. refl
  perform-IsQuiet logs_out id = λ c. refl
  perform-IsQuiet goes_home id = λ c. refl
  perform-IsQuiet shows_form id = λ c. refl
  perform-IsQuiet shows_own id = λ c. refl
  perform-IsQuiet shows_queue id = λ c. refl
  perform-IsQuiet shows_zones id = λ c. refl
  perform-IsQuiet shows_workspaces id = λ c. refl
  perform-IsQuiet shows_audit id = λ c. refl

module _ (s : Site) (db : Db) (r : HttpRequest) where
  guarded-IsQuiet : (admin : Bool) (a : Action) (id : Str) → IsQuiet db (guarded s admin a id db r)
  unfolding guarded reply
  guarded-IsQuiet admin a id c =
      elim (require-Passes (reply db) s.outside s.config s.now admin (perform s a id db) r) [
        | inl (resp, k, e) ↦ ap (λ (y : Answer). y.db) e
        | inr (u, p, e) ↦
            ap (λ (y : Answer). y.db) e
            ∙ perform-IsQuiet s db r u a id (sym (ap (λ (y : Answer). y.changed) e) ∙ c)
      ]

  enter-IsQuiet : (g : Gate) (a : Action) (id : Str) → IsQuiet db (enter s g a id db r)
  unfolding enter
  enter-IsQuiet everyone a id = perform-IsQuiet s db r no_user a id
  enter-IsQuiet users a id = guarded-IsQuiet false a id
  enter-IsQuiet admins a id = guarded-IsQuiet true a id

-- A request that does not signal a rebuild leaves the database as it was: no change is unannounced,
-- and no call of the store that fails leaves a part of its work.
pub serve_quiet :
    (s : Site) (db : Db) (r : HttpRequest) → (serve s db r).changed ≡ false → (serve s db r).db ≡ db
unfolding serve dispatch reply
serve_quiet s db r = go (find_route routes r)
  where
    go :
        (o : Option (Route × Str))
        → (dispatch s db r o).changed ≡ false
        → (dispatch s db r o).db ≡ db
    go none c = refl
    go (some (t, id)) c = enter-IsQuiet s db r t.gate t.action id c
