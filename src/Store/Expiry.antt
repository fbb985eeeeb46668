-- ===== src/Store/Expiry.antt =====
-- Expired grants: `PolicyInput` leaves them out, and `ExpireGrants` deletes them later.
use mathlib.Core.List.{append-nil, append_assoc}
use sandcastle.Prelude.{
  ℕ, ◌≤◌, ◌≡◌, ◌↔◌, Bool, false, Option, none, some, leb, leb→le, refl, sym, ap, ◌∙◌, true, false,
  not, List, [], ◌∷◌, ◌++◌, arith, keep, length, map, codes,
}
use sandcastle.Store.Db.{Env, Time, Uuid, Db, RuleRow, AuditRow, Result, ok, text}
use sandcastle.Store.Tx.{Outcome, done, fail, settle, ◌>>=◌, run_tx, audit}
use sandcastle.Store.Rules.{
  expire_grants, audit_expired, has_expired, in_force, opt_text, rule_detail,
}
use sandcastle.Store.Sql.{is_some}
use sandcastle.Store.Load.{policy_input, rules_in_force}

-- The row that the expiry of one grant writes.
abbrev pub expiry_row : Env → RuleRow → AuditRow
expiry_row env r = record {
  at = env.now;
  actor = codes "system";
  action = codes "expire";
  detail = (codes "workspace", text (opt_text env r.workspace_id)) ∷ rule_detail r.rule;
}

audit_expired-done :
    (env : Env) (gone : List RuleRow) (db : Db)
    → audit_expired env gone db
      ≡ done tt (record db { audit = db.audit ++ map (expiry_row env) gone })
unfolding audit_expired audit ◌>>=◌
audit_expired-done env [] db =
    ap (λ (l : List AuditRow). done tt (record db { audit = l })) (sym (append-nil db.audit))
audit_expired-done env (r ∷ gone) db =
    audit_expired-done env gone _
    ∙ ap (λ (l : List AuditRow). done tt (record db { audit = l }))
        (append_assoc db.audit (expiry_row env r ∷ []) (map (expiry_row env) gone))

-- ExpireGrants never fails. It deletes the rows that has_expired finds, returns their number, and
-- writes one audit row for each, in their order; all other tables stay as they are.
pub expire_grants_lem :
    (env : Env) (db : Db)
    → expire_grants env db ≡ (
      ok (length (keep (has_expired env.now) db.rules)),
      record db {
        rules = keep (λ r. not (has_expired env.now r)) db.rules;
        audit = db.audit ++ map (expiry_row env) (keep (has_expired env.now) db.rules);
      },
    )
unfolding expire_grants run_tx ◌>>=◌
expire_grants_lem env db = ap finish (
    audit_expired-done env gone
      (record db { rules = keep (λ r. not (has_expired env.now r)) db.rules }))
  where
    gone : List RuleRow
    gone = keep (has_expired env.now) db.rules

    finish : Outcome (Unit {0}) → Result ℕ × Db
    finish o = settle db (elim o [ done x d ↦ done (length gone) d | fail e ↦ fail e ])

-- A rule of a workspace whose expiry is not after the time.
pub record IsExpired (now : Time) (r : RuleRow) : Type 0 where
  pub workspace : Uuid
  pub is_grant : r.workspace_id ≡ some workspace
  pub expiry : Time
  pub has_expiry : r.expires_at ≡ some expiry
  pub over : expiry ≤ now

pub has_expired-IsExpired :
    (now : Time) (r : RuleRow) → (has_expired now r ≡ true) ↔ IsExpired now r
unfolding has_expired is_some
has_expired-IsExpired now r = (λ h. found r.workspace_id r.expires_at refl refl h, λ e. tests e)
  where
    found :
        (w : Option Uuid) (x : Option Time)
        → r.workspace_id ≡ w
        → r.expires_at ≡ x
        → has_expired now r ≡ true
        → IsExpired now r
    found none x e f h = absurd (let k = rw e at h in cc)
    found (some w) none e f h = absurd (let k = rw (e, f) at h in cc)
    found (some w) (some t) e f h = record {
      workspace = w;
      is_grant = e;
      expiry = t;
      has_expiry = f;
      over = leb→le t now (rw (e, f) at h);
    }

    tests : IsExpired now r → has_expired now r ≡ true
    tests e =
        rw (e.is_grant, e.has_expiry)
          (let l : leb e.expiry now ≡ true = (let o = e.over in ground arith) in l)

-- Two tests that agree keep the same rows.
keep-agree :
    {A : Type 0} (p q : A → Bool) (xs : List A) → ((x : A) → p x ≡ q x) → keep p xs ≡ keep q xs
keep-agree p q [] h = refl
keep-agree p q (x ∷ xs) h = rw (h x, keep-agree p q xs h) refl

-- ExpireGrants never fails. With any test that tells the expired rules of workspaces, those whose
-- expiry is not after the transaction's time, it deletes exactly the rows of the test, returns their
-- number, and writes one audit row for each, in their order; all other rules and tables stay as they
-- are.
pub expire_grants-IsExpired :
    (env : Env) (db : Db) (expired : RuleRow → Bool)
    → ((r : RuleRow) → (expired r ≡ true) ↔ IsExpired env.now r)
    → expire_grants env db ≡ (
      ok (length (keep expired db.rules)),
      record db {
        rules = keep (λ r. not (expired r)) db.rules;
        audit = db.audit ++ map (expiry_row env) (keep expired db.rules);
      },
    )
expire_grants-IsExpired env db expired tells =
    expire_grants_lem env db
    ∙ ap result (keep-agree (has_expired env.now) expired db.rules agree)
    ∙ ap
        (λ (l : List RuleRow). (
          ok (length (keep expired db.rules)),
          record db { rules = l; audit = db.audit ++ map (expiry_row env) (keep expired db.rules) },
        ))
        (keep-agree (λ r. not (has_expired env.now r)) (λ r. not (expired r)) db.rules
          (λ r. ap not (agree r)))
  where
    result : List RuleRow → Result ℕ × Db
    result l = (
      ok (length l),
      record db {
        rules = keep (λ r. not (has_expired env.now r)) db.rules;
        audit = db.audit ++ map (expiry_row env) l;
      },
    )

    same : (a b : Bool) → (a ≡ true) ↔ (b ≡ true) → a ≡ b
    same true true h = refl
    same true false h = sym (h.0 refl)
    same false true h = h.1 refl
    same false false h = refl

    agree : (r : RuleRow) → has_expired env.now r ≡ expired r
    agree r =
        let a = has_expired-IsExpired env.now r in
        let b = tells r in
        same (has_expired env.now r) (expired r) (λ h. b.1 (a.0 h), λ h. a.1 (b.0 h))

-- What is in force at `later` has not expired at `now`, so deleting what has expired is not seen.
keep-in_force :
    (now later : Time) (rows : List RuleRow)
    → now ≤ later
    → keep (in_force later) (keep (λ r. not (has_expired now r)) rows) ≡ keep (in_force later) rows
keep-in_force now later [] h = refl
keep-in_force now later (r ∷ rows) h = ground (arith, keep-in_force now later rows h, over r)
  where
    over : (r : RuleRow) → has_expired now r ≡ true → in_force later r ≡ false
    over r e = unfold has_expired in_force in ground arith

-- The policy that is loaded at any time from then on is the same whether or not ExpireGrants has run
-- in between: an expired grant stops working before its row is deleted.
pub policy_input-expire_grants :
    (env later : Env) (zones db assignments : Db)
    → env.now ≤ later.now
    → policy_input later zones (expire_grants env db).1 assignments
      ≡ policy_input later zones db assignments
unfolding policy_input rules_in_force
policy_input-expire_grants env later zones db assignments h =
    rw (expire_grants_lem env db, keep-in_force env.now later.now db.rules h) refl
