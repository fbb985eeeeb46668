-- ===== src/Store/Audited/Calls.antt =====
-- Each call of the store against the audit log.
use sandcastle.Prelude.{
  ◌≡◌, refl, sym, inl, inr, Bool, not, List, [], ◌∷◌, Str, arith, keep, find, Bool-cases,
  Option-cases, length,
}
use sandcastle.Prelude.Int.{ℤ}
use sandcastle.Policy.Rules.{Rule, valid_rule}
use sandcastle.Store.Db.{Env, Uuid, Db, Detail, RuleRow, Zone}
use sandcastle.Store.Tx.{Tx, Outcome, done, fail, pure, ◌>>=◌, ◌>>◌, run_tx, settle, as_uuid}
use sandcastle.Store.Keeps.{After, Keeps, Keeps-pure, Keeps-bind, Keeps-as_uuid}
use sandcastle.Store.Zones.{
  create_zone, clone_zone, rename_zone, delete_zone, set_default_zone, assign,
}
use sandcastle.Store.Rules.{
  add_zone_rule, delete_rule, grant_rule, expire_grants, has_expired, audit_expired,
}
use sandcastle.Store.Requests.{
  host_rule, same_request, file_request, file_new, find_or_file, decide, record_denial, record_tx,
}
use sandcastle.Store.Load.{seed, seed_tx, audit_system}
use sandcastle.Store.Audited.{
  SamePolicy, Extends, Grew, Logged, Logs, audit-Logs, audit-Extends, Logs-bind, Logs-then, Logs-if,
  Quiet-Keeps, guard-Extends, pure-Grew, grant-Logs, clone_rules-Extends, refuse_used-Quiet,
  insert_zone-Quiet, insert_rule-Quiet, insert_request-Quiet, update_name-Quiet,
  delete_zone_row-Quiet, clear_defaults-Quiet, update_default-Quiet, unassign_zone-Quiet,
  place-Quiet, zone_by_id-Quiet, take_rule-Quiet, take_pending-Quiet,
}
use mathlib.Core.List.{append-nil}

same : (db : Db) → SamePolicy db db
same db = record { zones = refl; rules = refl; assignments = refl; requests = refl; audit = refl }

settle-Logged :
    {A : Type 0} (db : Db) (o : Outcome A) → After (Logged db) o → Logged db (settle db o).1
settle-Logged db (done x d) h = h
settle-Logged db (fail e) h = inl (same db)

Grew-outcome : {A : Type 0} (db : Db) (o : Outcome A) → After (Grew db) o → After (Logged db) o
Grew-outcome db (done x d) h = inr h
Grew-outcome db (fail e) h = tt

run_tx-Logged : {A : Type 0} (m : Tx A) (db : Db) → Logs db m → Logged db (run_tx m db).1
unfolding run_tx
run_tx-Logged m db l =
    settle-Logged db (m db) (Grew-outcome db (m db) (l.at db ([], sym (append-nil db.audit))))

ruleset log_rules = (
  audit-Logs, Logs-bind, Logs-then, Logs-if, guard-Extends, pure-Grew, Keeps-as_uuid, Quiet-Keeps,
)

module _ (env : Env) (actor : Str) (db : Db) where
  pub create_zone-Logged : (name : Str) → Logged db (create_zone env actor name db).1
  unfolding create_zone
  create_zone-Logged name = run_tx-Logged _ db (search (log_rules, insert_zone-Quiet) depth 9)

  pub rename_zone-Logged : (id name : Str) → Logged db (rename_zone env actor id name db).1
  unfolding rename_zone
  rename_zone-Logged id name = run_tx-Logged _ db (search (log_rules, update_name-Quiet) depth 9)

  pub set_default_zone-Logged : (id : Str) → Logged db (set_default_zone env actor id db).1
  unfolding set_default_zone
  set_default_zone-Logged id =
      run_tx-Logged _ db (
        search (log_rules, clear_defaults-Quiet, update_default-Quiet, unassign_zone-Quiet) depth 9)

  pub delete_rule-Logged : (id : Str) → Logged db (delete_rule env actor id db).1
  unfolding delete_rule
  delete_rule-Logged id = run_tx-Logged _ db (search (log_rules, take_rule-Quiet) depth 9)

  pub assign-Logged : (ws zone : Str) → Logged db (assign env actor ws zone db).1
  unfolding assign
  assign-Logged ws zone =
      run_tx-Logged _ db (search (log_rules, place-Quiet, zone_by_id-Quiet) depth 9)

  pub grant_rule-Logged :
      (ws : Str) (r : Rule) (ttl : ℤ) → Logged db (grant_rule env actor ws r ttl db).1
  unfolding grant_rule
  grant_rule-Logged ws r ttl = run_tx-Logged _ db (grant-Logs db env actor ws r ttl [])

  pub add_zone_rule-Logged :
      (zone : Str) (r : Rule) → Logged db (add_zone_rule env actor zone r db).1
  unfolding add_zone_rule
  add_zone_rule-Logged zone r = elim (Bool-cases (valid_rule r)) [
    | inl e ↦ rw e (run_tx-Logged _ db (search (log_rules, insert_rule-Quiet) depth 9))
    | inr e ↦ rw e (inl (same db))
  ]

  pub decide-Logged :
      (id : Str) (approve : Bool) (ttl : ℤ) → Logged db (decide env actor id approve ttl db).1
  unfolding decide
  decide-Logged id approve ttl =
      run_tx-Logged _ db (search (log_rules, grant-Logs, take_pending-Quiet) depth 9)

  pub audit_system-Logged :
      (action : Str) (detail : Detail) → Logged db (audit_system env action detail db).1
  unfolding audit_system
  audit_system-Logged action detail = run_tx-Logged _ db (search audit-Logs)

  pub clone_zone-Logged : (id name : Str) → Logged db (clone_zone env actor id name db).1
  unfolding clone_zone
  clone_zone-Logged id name =
      run_tx-Logged _ db
        (search (log_rules, clone_rules-Extends, zone_by_id-Quiet, insert_zone-Quiet) depth 9)

  pub delete_zone-Logged : (id : Str) → Logged db (delete_zone env actor id db).1
  unfolding delete_zone
  delete_zone-Logged id =
      run_tx-Logged _ db
        (search (log_rules, delete_zone_row-Quiet, refuse_used-Quiet, zone_by_id-Quiet) depth 9)

  file_new-Logs :
      (ws_id : Str) (ws : Uuid) (host : Str) (port : ℤ) (why : Str)
      → Logs db (file_new env actor ws_id ws host port why)
  unfolding file_new
  file_new-Logs ws_id ws host port why = search (log_rules, insert_request-Quiet) depth 9

  find_or_file-Logged :
      (ws_id : Str) (ws : Uuid) (host : Str) (port : ℤ) (why : Str)
      → After (Logged db) (find_or_file env actor ws_id ws host port why db)
  unfolding find_or_file ◌>>=◌
  find_or_file-Logged ws_id ws host port why =
      elim (Option-cases (find (same_request ws host port) db.requests)) [
        | inl e ↦
            rw (e, find_or_file)
              (Grew-outcome db _
                ((file_new-Logs ws_id ws host port why).at db ([], sym (append-nil db.audit))))
        | inr (q, e) ↦ rw (e, find_or_file) (inl (same db))
      ]

  pub file_request-Logged :
      (ws host : Str) (port : ℤ) (why : Str)
      → Logged db (file_request env actor ws host port why db).1
  unfolding file_request run_tx as_uuid ◌>>=◌
  file_request-Logged ws host port why = elim (Bool-cases (valid_rule (host_rule host port))) [
    | inr e ↦ rw e (inl (same db))
    | inl e ↦ rw e (elim (Option-cases (env.parse_uuid ws)) [
      | inl n ↦ rw n (inl (same db))
      | inr (u, n) ↦ rw n (settle-Logged db _ (find_or_file-Logged ws u host port why))
    ])
  ]

  pub record_denial-Logged :
      (ws host : Str) (port : ℤ) → Logged db (record_denial env ws host port db).1
  unfolding record_denial run_tx record_tx as_uuid ◌>>=◌
  record_denial-Logged ws host port = inl (ground arith)

  seed_tx-Logs : Logs db (seed_tx env)
  unfolding seed_tx
  seed_tx-Logs = search (log_rules, insert_zone-Quiet, insert_rule-Quiet) depth 9

  pub seed-Logged : Logged db (seed env db).1
  unfolding seed run_tx ◌>>=◌
  seed-Logged = go db.zones refl
    where
      go :
          (zs : List Zone)
          → db.zones ≡ zs
          → Logged db (settle db (elim zs [ [] ↦ seed_tx env db | z ∷ r ↦ pure tt db ])).1
      go [] e =
          settle-Logged db _
            (Grew-outcome db _ (seed_tx-Logs.at db ([], sym (append-nil db.audit))))
      go (z ∷ r) e = inl (same db)

module _ (env : Env) (a : Db) where
  audit_expired-Extends : (gone : List RuleRow) → Keeps (Extends a) (audit_expired env gone)
  unfolding audit_expired
  audit_expired-Extends [] = Keeps-pure tt
  audit_expired-Extends (r ∷ gone) =
      Keeps-bind _ _ (audit-Extends a env _ _ _) (λ x. audit_expired-Extends gone)

  audit_expired-Logs : (r : RuleRow) (gone : List RuleRow) → Logs a (audit_expired env (r ∷ gone))
  unfolding audit_expired
  audit_expired-Logs r [] = Logs-then a _ _ (audit-Logs a env _ _ _) (λ x. Keeps-pure tt)
  audit_expired-Logs r (q ∷ gone) =
      Logs-bind a _ _ (audit-Extends a env _ _ _) (λ x. audit_expired-Logs q gone)

-- Where no row passes a test, filtering by its opposite changes nothing.
keep_all :
    {A : Type 0} (p : A → Bool) (xs : List A) → keep p xs ≡ [] → keep (λ x. not (p x)) xs ≡ xs
keep_all p [] e = refl
keep_all p (x ∷ xs) e = ground (arith, keep_all p xs)

pub expire_grants-Logged : (env : Env) (db : Db) → Logged db (expire_grants env db).1
unfolding expire_grants run_tx audit_expired ◌>>=◌
expire_grants-Logged env db = go (keep (has_expired env.now) db.rules) refl
  where
    left : List RuleRow
    left = keep (λ r. not (has_expired env.now r)) db.rules

    go :
        (gone : List RuleRow)
        → keep (has_expired env.now) db.rules ≡ gone
        → Logged db
            (settle db
              ((audit_expired env gone >> pure (length gone)) (record db { rules = left }))).1
    go [] e = inl (record {
      zones = refl;
      rules = keep_all (has_expired env.now) db.rules e;
      assignments = refl;
      requests = refl;
      audit = refl;
    })
    go (r ∷ gone) e = settle-Logged db _ (
        Grew-outcome db _ (
          (Logs-then db _ _ (audit_expired-Logs env db r gone) (λ x. Keeps-pure _)).at _
            ([], sym (append-nil db.audit))))
