-- ===== src/Store/Audited.antt =====
-- The audit log: rows are only ever added, and nothing that decides access changes without one.
pub mod Calls
pub mod History
use mathlib.Core.List.{append-nil, append_assoc}
use sandcastle.Prelude.{
  ◌≡◌, refl, sym, ap, ◌∙◌, ◌⊎◌, inl, inr, Bool, true, false, not, Option, none, some, List, [], ◌∷◌,
  ◌++◌, Str, arith, keep, find, Bool-cases, Option-cases, codes, ℕ, suc, length, if◌then◌else◌,
}
use sandcastle.Prelude.Int.{ℤ}
use sandcastle.Policy.Rules.{Rule, valid_rule}
use sandcastle.Store.Db.{
  Env, Uuid, Db, AuditRow, Detail, RuleRow, Zone, Assignment, Request, TxError,
}
use sandcastle.Store.Tx.{
  Tx, Outcome, done, fail, pure, guard, ◌>>=◌, ◌>>◌, run_tx, settle, as_uuid, audit,
}
use sandcastle.Store.Keeps.{After, Keeps, Keeps-pure, Keeps-bind, Keeps-guard, Keeps-as_uuid}
use sandcastle.Store.Sql.{insert_zone, insert_rule, insert_request, upsert_assignment}
use sandcastle.Store.Zones.{
  zone_by_id, create_zone, clone_zone, copy_rules, rename_zone, update_name, delete_zone,
  delete_zone_row, refuse_used, clone_rules, set_default_zone, clear_defaults, update_default,
  unassign_zone, assign, place,
}
use sandcastle.Store.Rules.{
  add_zone_rule, delete_rule, take_rule, grant, grant_rule, expire_grants, has_expired,
  audit_expired,
}
use sandcastle.Store.Requests.{
  file_request, file_new, find_or_file, decide, take_pending, record_denial, record_tx,
}
use sandcastle.Store.Load.{seed, seed_tx, audit_system}
use sandcastle.Store.Ops.{
  Op, seeds, expires, creates_zone, clones_zone, renames_zone, deletes_zone, sets_default,
  adds_rule, deletes_rule, assigns, grants_rule, files, decides, records, audits, step, run,
}

-- The tables that decide access, and the log, are as they were.
pub record SamePolicy (a b : Db) : Type 0 where
  pub zones : b.zones ≡ a.zones
  pub rules : b.rules ≡ a.rules
  pub assignments : b.assignments ≡ a.assignments
  pub requests : b.requests ≡ a.requests
  pub audit : b.audit ≡ a.audit

abbrev pub Extends : Db → Db → Type 0
Extends a b = (new : List AuditRow) × (b.audit ≡ a.audit ++ new)

-- At least one row was added to the log, behind the rows that were there.
abbrev pub Grew : Db → Db → Type 0
Grew a b = (row : AuditRow) × (new : List AuditRow) × (b.audit ≡ a.audit ++ row ∷ new)

abbrev pub Logged : Db → Db → Type 0
Logged a b = SamePolicy a b ⊎ Grew a b

-- Every outcome of `m` adds a row.
pub record Logs {ℓ} {A : Type ℓ} (a : Db) (m : Tx A) : Type ℓ where
  pub at : (db : Db) → Extends a db → After (Grew a) (m db)

module _ (a : Db) where
  snoc-Grew :
      (db : Db) (row : AuditRow) (xs : List AuditRow)
      → db.audit ≡ a.audit ++ xs
      → (r : AuditRow) × (new : List AuditRow) × (db.audit ++ row ∷ [] ≡ a.audit ++ r ∷ new)
  snoc-Grew db row [] e =
      (row, [], ap (λ (l : List AuditRow). l ++ row ∷ []) (e ∙ append-nil a.audit))
  snoc-Grew db row (x ∷ xs) e = (
    x,
    xs ++ row ∷ [],
    ap (λ (l : List AuditRow). l ++ row ∷ []) e ∙ append_assoc a.audit (x ∷ xs) (row ∷ []),
  )

  audit-Logs :
      (env : Env) (actor action : Str) (detail : Detail) → Logs a (audit env actor action detail)
  unfolding audit
  audit-Logs env actor action detail = record { at = λ db (new, e). snoc-Grew db _ new e }

  audit-Extends :
      (env : Env) (actor action : Str) (detail : Detail)
      → Keeps (Extends a) (audit env actor action detail)
  unfolding audit
  audit-Extends env actor action detail = record {
    at = λ db (new, e). (
      new ++ row ∷ [],
      ap (λ (l : List AuditRow). l ++ row ∷ []) e ∙ append_assoc a.audit new (row ∷ []),
    );
  }
    where
      row : AuditRow
      row = record { at = env.now; actor = actor; action = action; detail = detail }

-- A transaction that leaves the log alone.
abbrev Quiet : {A : Type 0} → Tx A → Type 0
Quiet m = (db : Db) → After (λ d. d.audit ≡ db.audit) (m db)

insert_zone-Quiet : (z : Zone) → Quiet (insert_zone z)
unfolding insert_zone ◌>>=◌
insert_zone-Quiet z db = ground arith

insert_rule-Quiet : (r : RuleRow) → Quiet (insert_rule r)
unfolding insert_rule ◌>>=◌
insert_rule-Quiet r db = ground arith

insert_request-Quiet : (q : Request) → Quiet (insert_request q)
unfolding insert_request ◌>>=◌
insert_request-Quiet q db = ground arith

upsert_assignment-Quiet : (b : Assignment) → Quiet (upsert_assignment b)
unfolding upsert_assignment ◌>>=◌
upsert_assignment-Quiet b db = ground arith

update_name-Quiet : (z : Uuid) (name : Str) → Quiet (update_name z name)
unfolding update_name ◌>>=◌
update_name-Quiet z name db = ground arith

delete_zone_row-Quiet : (z : Uuid) → Quiet (delete_zone_row z)
unfolding delete_zone_row ◌>>=◌
delete_zone_row-Quiet z db = ground arith

clear_defaults-Quiet : Quiet clear_defaults
unfolding clear_defaults ◌>>=◌
clear_defaults-Quiet db = refl

update_default-Quiet : (z : Uuid) → Quiet (update_default z)
unfolding update_default ◌>>=◌
update_default-Quiet z db = ground arith

unassign_zone-Quiet : (z : Uuid) → Quiet (unassign_zone z)
unfolding unassign_zone ◌>>=◌
unassign_zone-Quiet z db = refl

place-Quiet : (actor : Str) (ws : Uuid) (zone : Zone) → Quiet (place actor ws zone)
unfolding place upsert_assignment ◌>>=◌
place-Quiet actor ws zone db = ground arith

refuse_used-Quiet : (zone : Zone) (z : Uuid) → Quiet (refuse_used zone z)
unfolding refuse_used ◌>>=◌
refuse_used-Quiet zone z db = ground arith

zone_by_id-Quiet : (z : Uuid) → Quiet (zone_by_id z)
unfolding zone_by_id ◌>>=◌
zone_by_id-Quiet z db = ground arith

take_rule-Quiet : (u : Uuid) → Quiet (take_rule u)
unfolding take_rule ◌>>=◌
take_rule-Quiet u db = ground arith

take_pending-Quiet :
    (env : Env) (actor : Str) (approve : Bool) (ttl : ℤ) (u : Uuid)
    → Quiet (take_pending env actor approve ttl u)
unfolding take_pending ◌>>=◌
take_pending-Quiet env actor approve ttl u db = ground arith

module _ (a : Db) where
  quiet_outcome :
      {A : Type 0} (db : Db) (o : Outcome A)
      → Extends a db
      → After (λ d. d.audit ≡ db.audit) o
      → After (Extends a) o
  quiet_outcome db (done x d) (new, e) q = (new, q ∙ e)
  quiet_outcome db (fail x) h q = tt

  Quiet-Keeps : {A : Type 0} (m : Tx A) → Quiet m → Keeps (Extends a) m
  Quiet-Keeps m q = record { at = λ db h. quiet_outcome db (m db) h (q db) }

  Logs-bind {ℓ κ} :
      {A : Type ℓ} {B : Type κ} (m : Tx A) (f : A → Tx B)
      → Keeps (Extends a) m
      → ((x : A) → Logs a (f x))
      → Logs a (m >>= f)
  unfolding ◌>>=◌
  Logs-bind m f km lf = record { at = λ db h. go (m db) (km.at db h) }
    where
      go :
          (o : Outcome _)
          → After (Extends a) o
          → After (Grew a) (elim o [ done x d ↦ f x d | fail e ↦ fail e ])
      go (done x d) h = (lf x).at d h
      go (fail e) h = tt

  -- What follows a transaction that has logged may do as it likes but for the log.
  Logs-then {ℓ κ} :
      {A : Type ℓ} {B : Type κ} (m : Tx A) (f : A → Tx B)
      → Logs a m
      → ((x : A) → Keeps (Grew a) (f x))
      → Logs a (m >>= f)
  unfolding ◌>>=◌
  Logs-then m f lm kf = record { at = λ db h. go (m db) (lm.at db h) }
    where
      go :
          (o : Outcome _)
          → After (Grew a) o
          → After (Grew a) (elim o [ done x d ↦ f x d | fail e ↦ fail e ])
      go (done x d) h = (kf x).at d h
      go (fail e) h = tt

  Logs-if {ℓ} :
      {A : Type ℓ} (b : Bool) (m n : Tx A) → Logs a m → Logs a n → Logs a (if b then m else n)
  Logs-if true m n lm ln = lm
  Logs-if false m n lm ln = ln

  copy_rules-Extends :
      (env : Env) (actor : Str) (z : Uuid) (n : ℕ) (rows : List RuleRow)
      → Keeps (Extends a) (copy_rules env actor z n rows)
  unfolding copy_rules
  copy_rules-Extends env actor z n [] = Keeps-pure tt
  copy_rules-Extends env actor z n (r ∷ rows) =
      Keeps-bind _ _ (Quiet-Keeps _ (insert_rule-Quiet _))
        (λ x. copy_rules-Extends env actor z (suc n) rows)

  clone_rules-Extends :
      (env : Env) (actor : Str) (z src : Uuid) → Keeps (Extends a) (clone_rules env actor z src)
  unfolding clone_rules
  clone_rules-Extends env actor z src = record {
    at = λ db h. (copy_rules-Extends env actor z 1 _).at db h;
  }

  guard-Extends : (b : Bool) (e : TxError) → Keeps (Extends a) (guard b e)
  unfolding ◌>>=◌
  guard-Extends true e = record { at = λ db h. h }
  guard-Extends false e = record { at = λ db h. tt }

  pure-Grew {ℓ} : {A : Type ℓ} (x : A) → Keeps (Grew a) (pure x)
  pure-Grew x = Keeps-pure x

  grant-Logs :
      (env : Env) (actor ws : Str) (r : Rule) (ttl : ℤ) (extra : Detail)
      → Logs a (grant env actor ws r ttl extra)
  unfolding grant
  grant-Logs env actor ws r ttl extra =
      search (audit-Logs, Logs-bind, guard-Extends, Keeps-as_uuid, Quiet-Keeps, insert_rule-Quiet)
        depth 9
