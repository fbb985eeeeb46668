-- ===== src/Store/Audited/History.antt =====
-- Every call, and every history of calls, against the audit log.
use sandcastle.Prelude.{sym, ap, ◌∙◌, inl, inr, List, [], ◌∷◌, ◌++◌}
use sandcastle.Store.Db.{Env, Db, AuditRow}
use sandcastle.Store.Ops.{
  Op, seeds, expires, creates_zone, clones_zone, renames_zone, deletes_zone, sets_default,
  adds_rule, deletes_rule, assigns, grants_rule, files, decides, records, audits, step, run,
}
use sandcastle.Store.Audited.{Extends, Logged}
use mathlib.Core.List.{append-nil, append_assoc}
use sandcastle.Store.Audited.Calls.{
  create_zone-Logged, clone_zone-Logged, rename_zone-Logged, set_default_zone-Logged,
  delete_zone-Logged, delete_rule-Logged, assign-Logged, grant_rule-Logged, add_zone_rule-Logged,
  decide-Logged, audit_system-Logged, file_request-Logged, record_denial-Logged, seed-Logged,
  expire_grants-Logged,
}

-- One call of any kind, successful or not, either leaves the zones, rules, assignments, requests and
-- the audit log as they were, or keeps every audit row and adds at least one behind them.
pub step-Logged : (env : Env) (op : Op) (db : Db) → Logged db (step env op db)
unfolding step
step-Logged env seeds db = seed-Logged env [] db
step-Logged env expires db = expire_grants-Logged env db
step-Logged env (creates_zone actor name) db = create_zone-Logged env actor db name
step-Logged env (clones_zone actor id name) db = clone_zone-Logged env actor db id name
step-Logged env (renames_zone actor id name) db = rename_zone-Logged env actor db id name
step-Logged env (deletes_zone actor id) db = delete_zone-Logged env actor db id
step-Logged env (sets_default actor id) db = set_default_zone-Logged env actor db id
step-Logged env (adds_rule actor zone r) db = add_zone_rule-Logged env actor db zone r
step-Logged env (deletes_rule actor id) db = delete_rule-Logged env actor db id
step-Logged env (assigns actor ws zone) db = assign-Logged env actor db ws zone
step-Logged env (grants_rule actor ws r ttl) db = grant_rule-Logged env actor db ws r ttl
step-Logged env (files actor ws host port why) db =
    file_request-Logged env actor db ws host port why
step-Logged env (decides actor id approve ttl) db = decide-Logged env actor db id approve ttl
step-Logged env (records ws host port) db = record_denial-Logged env [] db ws host port
step-Logged env (audits action detail) db = audit_system-Logged env [] db action detail

-- So over any history of calls the log only grows at its end.
pub run-Extends : (ops : List (Env × Op)) (db : Db) → Extends db (run ops db)
unfolding run
run-Extends [] db = ([], sym (append-nil db.audit))
run-Extends ((env, op) ∷ ops) db = elim (step-Logged env op db) [
  | inl s ↦
      let (new, e) = run-Extends ops (step env op db) in
      (new, e ∙ ap (λ (l : List AuditRow). l ++ new) s.audit)
  | inr (row, rows, g) ↦
      let (new, e) = run-Extends ops (step env op db) in
      (
        row ∷ rows ++ new,
        e ∙ ap (λ (l : List AuditRow). l ++ new) g ∙ append_assoc db.audit (row ∷ rows) new,
      )
]
