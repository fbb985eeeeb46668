-- ===== src/Web/Filed.antt =====
-- What `fileRequest` of admin/internal/web/handlers.go may write.
use sandcastle.Prelude.{
  ◌≡◌, ◌⊎◌, inl, inr, refl, sym, true, Option, none, some, Str, str_eq→eq, Bool-cases, find, arith,
  codes, subst,
}
use sandcastle.Prelude.Int.{ℤ}
use sandcastle.Policy.Rules.{Workspace, valid_rule}
use sandcastle.Http.{HttpRequest}
use sandcastle.Auth.Config.{User}
use sandcastle.Watch.{by_id}
use sandcastle.Store.Db.{Env, Uuid, Request, Db, Result, ok, err}
use sandcastle.Store.Tx.{Outcome, pure, audit}
use sandcastle.Store.Keeps.{
  Keeps, After, Keeps-bind, Keeps-as_uuid, keeps_rules, run_tx-Keeps, After-guard,
}
use sandcastle.Store.Sql.{insert_request}
use sandcastle.Store.Requests.{host_rule, same_request, file_new, find_or_file, file_request}
use sandcastle.Web.Forms.{finish}
use sandcastle.Web.Members.{Site, owns, filed, file_for, file, reply}

-- The same zones, rules, assignments and denials.
pub record SamePolicy (db d : Db) : Type 0 where
  pub zones : d.zones ≡ db.zones
  pub rules : d.rules ≡ db.rules
  pub assignments : d.assignments ≡ db.assignments
  pub denials : d.denials ≡ db.denials

SamePolicy-refl : (db : Db) → SamePolicy db db
SamePolicy-refl db = record { zones = refl; rules = refl; assignments = refl; denials = refl }

module _ (db : Db) (env : Env) (actor ws_id : Str) (ws : Uuid) (host : Str) (port : ℤ)
    (why : Str) where
  insert-Keeps : (q : Request) → Keeps (SamePolicy db) (insert_request q)
  unfolding insert_request pure
  insert-Keeps q = record {
    at = λ d h. After-guard (SamePolicy db) _ _ _ d λ _. After-guard (SamePolicy db) _ _ _ d λ _.
        record {
          zones = h.zones;
          rules = h.rules;
          assignments = h.assignments;
          denials = h.denials;
        };
  }

  audit-Keeps : (action : Str) (detail : _) → Keeps (SamePolicy db) (audit env actor action detail)
  unfolding audit
  audit-Keeps action detail = record {
    at = λ d h. record {
      zones = h.zones;
      rules = h.rules;
      assignments = h.assignments;
      denials = h.denials;
    };
  }

  file_new-Keeps : Keeps (SamePolicy db) (file_new env actor ws_id ws host port why)
  unfolding file_new
  file_new-Keeps = search (keeps_rules, insert-Keeps, audit-Keeps)

  find_or_file-Keeps : Keeps (SamePolicy db) (find_or_file env actor ws_id ws host port why)
  unfolding find_or_file pure
  find_or_file-Keeps = record { at = λ d h. go d h (find (same_request ws host port) d.requests) }
    where
      go :
          (d : Db)
          → SamePolicy db d
          → (o : Option Request)
          → After (SamePolicy db) (elim o as (λ _. Outcome Uuid) [
            | some q ↦ pure q.id d
            | none ↦ file_new env actor ws_id ws host port why d
          ])
      go d h (some q) = h
      go d h none = file_new-Keeps.at d h

pub file_request-SamePolicy :
    (env : Env) (actor ws_id host : Str) (port : ℤ) (why : Str) (db : Db)
    → SamePolicy db (file_request env actor ws_id host port why db).1
unfolding file_request
file_request-SamePolicy env actor ws_id host port why db =
    elim (Bool-cases (valid_rule (host_rule host port))) [
      | inl e ↦ rw e (
          run_tx-Keeps (SamePolicy db) _ db
            (Keeps-bind _ _ (Keeps-as_uuid env ws_id)
              λ ws. find_or_file-Keeps db env actor ws_id ws host port why)
            (SamePolicy-refl db))
      | inr e ↦ rw e (SamePolicy-refl db)
    ]

-- Filing leaves the database alone, or it is for a running workspace that the user may file for,
-- and then changes requests and the audit log alone.
pub file_writes :
    (s : Site) (r : HttpRequest) (u : User) (db : Db)
    → ((file s r u db).db ≡ db)
      ⊎ ((ws : Workspace) × (by_id (r.form (codes "ws")) s.pods ≡ some ws)
          × ((u.admin ≡ true) ⊎ (ws.owner_id ≡ u.id))
          × SamePolicy db (file s r u db).db)
unfolding file file_for filed finish reply owns
file_writes s r u db = go (by_id (r.form (codes "ws")) s.pods) refl
  where
    filed_db : (env : Env) (p : Result Uuid × Db) → (filed env p).db ≡ p.1
    filed_db env (ok id, d) = refl
    filed_db env (err e, d) = refl

    go :
        (o : Option Workspace)
        → by_id (r.form (codes "ws")) s.pods ≡ o
        → ((file_for s r u db o).db ≡ db)
          ⊎ ((ws : Workspace) × (by_id (r.form (codes "ws")) s.pods ≡ some ws)
              × ((u.admin ≡ true) ⊎ (ws.owner_id ≡ u.id))
              × SamePolicy db (file_for s r u db o).db)
    go none e = inl refl
    go (some ws) e = elim (Bool-cases (owns u ws)) [
      | inr p ↦ inl (rw p refl)
      | inl p ↦ rw p (
          inr (
            ws,
            e,
            elim (Bool-cases u.admin) [
              | inl a ↦ inl a
              | inr a ↦ inr (str_eq→eq _ _ (let q : owns u ws ≡ true = p in ground arith))
            ],
            subst (λ d. SamePolicy db d) (sym (filed_db s.env _))
                (file_request-SamePolicy s.env u.name ws.id _ _ _ db),
          ))
    ]
