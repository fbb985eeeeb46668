-- ===== src/Store/Invariant/History.antt =====
-- The invariant over the calls without an actor, and over every history of calls.
use sandcastle.Prelude.{
  ℕ, ◌+◌, ◌≤◌, ◌≡◌, refl, inl, inr, Bool, true, false, not, ◌||◌, List, [], ◌∷◌, ◌++◌, Str,
  All-keep, keep, find, length, arith, ◌==◌, ==_iff, Bool-cases, Option-cases, codes, ltb, str_eq,
}
use sandcastle.Prelude.Int.{ℤ, pos, int_eq}
use sandcastle.Policy.Name.{valid_name}
use sandcastle.Policy.Rules.{valid_rule, host_kind}
use sandcastle.Store.Db.{Env, Uuid, Denial, Zone, Db, empty_db, own, other, second}
use sandcastle.Store.Tx.{pure, ◌>>=◌}
use sandcastle.Store.Keeps.{After, Keeps, Keeps-bind, Keeps-as_uuid, run_tx-Keeps}
use sandcastle.Store.Rules.{expire_grants, has_expired}
use sandcastle.Store.Requests.{
  record_denial, record_tx, fits_int4, same_denial, cap_denials, max_denials, int4_max,
}
use sandcastle.Store.Load.{seed, seed_tx, seed_rule}
use sandcastle.Store.Sql.{insert_rule}
use sandcastle.Store.Ops.{
  Op, seeds, expires, creates_zone, clones_zone, renames_zone, deletes_zone, sets_default,
  adds_rule, deletes_rule, assigns, grants_rule, files, decides, records, audits, step, run,
}
use sandcastle.Store.Expiry.{expire_grants_lem}
use sandcastle.Store.Invariant.{IsSound, Wf}
use sandcastle.Store.Invariant.Denials.{
  cap_denials_bound, cap_denials_others, length-keep-bump_rows,
}
use sandcastle.Store.Invariant.Writes.{audit-Wf, insert_zone-Wf, insert_rule-Wf}
use sandcastle.Store.Invariant.Parts.{guard-Wf}
use sandcastle.Store.Invariant.Assigned.{set_default_zone-Wf, assign-Wf, logged-Wf}
use sandcastle.Store.Invariant.Kept.{
  create_zone-Wf, clone_zone-Wf, rename_zone-Wf, delete_zone-Wf, add_zone_rule-Wf, delete_rule-Wf,
  grant_rule-Wf, file_request-Wf, decide-Wf, audit_system-Wf,
}

-- Only the number of denials of each workspace is in the invariant.
denials-Wf :
    (db : Db) (rows : List Denial)
    → Wf db
    → ((v : Uuid) → length (keep (λ d. d.workspace_id == v) rows) ≤ max_denials)
    → Wf (record db { denials = rows })
denials-Wf db rows w h = record {
  zone_ids = w.zone_ids;
  one_default = w.one_default;
  rules = w.rules;
  assigned_once = w.assigned_once;
  assigned = w.assigned;
  requests = w.requests;
  denials = h;
}

keep_snoc :
    {A : Type 0} (p : A → Bool) (a : A) (xs : List A)
    → p a ≡ false
    → keep p (xs ++ a ∷ []) ≡ keep p xs
keep_snoc p a [] h = rw h refl
keep_snoc p a (x ∷ xs) h = ground (arith, keep_snoc p a xs h)

capped :
    (ws v : Uuid) (d : Denial) (rows : List Denial)
    → d.workspace_id ≡ ws
    → length (keep (λ e. e.workspace_id == v) rows) ≤ max_denials
    → length (keep (λ e. e.workspace_id == v) (cap_denials ws (rows ++ d ∷ []))) ≤ max_denials
capped ws v d rows e h = elim (Bool-cases (v == ws)) [
  | inl q ↦ rw ((==_iff v ws).0 q) (cap_denials_bound ws (rows ++ d ∷ []))
  | inr q ↦
      rw
        (
          cap_denials_others ws v (rows ++ d ∷ []) (λ p. ground (arith, ==_iff v ws)),
          keep_snoc (λ e. e.workspace_id == v) d rows
              (ground (arith, ==_iff d.workspace_id v, ==_iff v ws)),
        )
        h
]

record_tx-Wf :
    (env : Env) (ws : Uuid) (host : Str) (port : ℤ) → Keeps Wf (record_tx env ws host port)
unfolding record_tx ◌>>=◌
record_tx-Wf env ws host port = record {
  at = λ db w. elim (Option-cases (find (same_denial ws host port) db.denials)) [
    | inl e ↦ rw (e, After) (denials-Wf db _ w (λ v. capped ws v _ db.denials refl (w.denials v)))
    | inr (d, e) ↦
        rw (e, After)
          (elim (Bool-cases (ltb (d.last_seen + second) env.now)) [
            | inl f ↦ elim (Bool-cases (ltb d.count int4_max)) [
              | inl g ↦
                  rw (f, g, After)
                    (denials-Wf db _ w (λ v.
                      rw (length-keep-bump_rows env.now ws host port v db.denials) (w.denials v)))
              | inr g ↦ rw (f, g, After) tt
            ]
            | inr f ↦ rw (f, After) w
          ])
  ];
}

record_denial-Wf :
    (env : Env) (ws host : Str) (port : ℤ) (db : Db)
    → Wf db
    → Wf (record_denial env ws host port db).1
unfolding record_denial
record_denial-Wf env ws host port db w =
    run_tx-Keeps Wf _ db
      (Keeps-bind _ _ (guard-Wf env [] (fits_int4 port) (own other))
        (λ x. Keeps-bind _ _ (Keeps-as_uuid env ws) (λ u. record_tx-Wf env u host port)))
      w

expire_grants-Wf : (env : Env) (db : Db) → Wf db → Wf (expire_grants env db).1
expire_grants-Wf env db w = rw (expire_grants_lem env db) (
    logged-Wf left _ (record {
      zone_ids = w.zone_ids;
      one_default = w.one_default;
      rules = All-keep (IsSound db.zones) (λ r. not (has_expired env.now r)) db.rules w.rules;
      assigned_once = w.assigned_once;
      assigned = w.assigned;
      requests = w.requests;
      denials = w.denials;
    }))
  where
    left : Db
    left = record db { rules = keep (λ r. not (has_expired env.now r)) db.rules }

seed_rule-Wf :
    (env : Env) (n : ℕ) (port : ℤ)
    → valid_rule (record { kind = host_kind; value = codes "example.com"; port = port }) ≡ true
    → Keeps Wf (insert_rule (seed_rule env n port))
unfolding seed_rule
seed_rule-Wf env n port v = insert_rule-Wf _ v

example_valid :
    (port : ℤ)
    → (int_eq port (pos 443) || int_eq port (pos 80)) ≡ true
    → valid_rule (record { kind = host_kind; value = codes "example.com"; port = port }) ≡ true
unfolding valid_rule valid_name codes str_eq host_kind
example_valid port e = rw e refl

seed-Wf : (env : Env) (db : Db) → Wf db → Wf (seed env db).1
unfolding seed int_eq
seed-Wf env db w = run_tx-Keeps Wf _ db (record { at = λ d k. go d k d.zones refl }) w
  where
    tx : Keeps Wf (seed_tx env)
    tx =
        unfold seed_tx in
        (Keeps-bind _ _ (insert_zone-Wf _) (λ x.
          Keeps-bind _ _ (seed_rule-Wf env 1 (pos 443) (example_valid (pos 443) refl)) (λ x.
            Keeps-bind _ _ (seed_rule-Wf env 2 (pos 80) (example_valid (pos 80) refl))
              (λ x. audit-Wf env _ _ _))))

    go :
        (d : Db)
        → Wf d
        → (zs : List Zone) → d.zones ≡ zs
        → After Wf (elim zs [ [] ↦ seed_tx env d | z ∷ r ↦ pure tt d ])
    go d k [] e = tx.at d k
    go d k (z ∷ r) e = unfold ◌>>=◌ in k

-- Each call of the store, in any environment and with any arguments, keeps the invariant: ids of
-- zones are distinct, at most one zone is the default, every rule is valid, has one owner, has an
-- expiry where it is a grant and belongs to a zone that exists, a workspace is assigned at most once
-- and only to a zone that exists and is not the default, pending hosts are valid, and no workspace
-- has more than 200 denials.
pub step-Wf : (env : Env) (op : Op) (db : Db) → Wf db → Wf (step env op db)
unfolding step
step-Wf env seeds db w = seed-Wf env db w
step-Wf env expires db w = expire_grants-Wf env db w
step-Wf env (creates_zone actor name) db w = create_zone-Wf env actor db w name
step-Wf env (clones_zone actor id name) db w = clone_zone-Wf env actor db w id name
step-Wf env (renames_zone actor id name) db w = rename_zone-Wf env actor db w id name
step-Wf env (deletes_zone actor id) db w = delete_zone-Wf env actor db w id
step-Wf env (sets_default actor id) db w = set_default_zone-Wf env actor id db w
step-Wf env (adds_rule actor zone r) db w = add_zone_rule-Wf env actor db w zone r
step-Wf env (deletes_rule actor id) db w = delete_rule-Wf env actor db w id
step-Wf env (assigns actor ws zone) db w = assign-Wf env actor ws zone db w
step-Wf env (grants_rule actor ws r ttl) db w = grant_rule-Wf env actor db w ws r ttl
step-Wf env (files actor ws host port why) db w = file_request-Wf env actor db w ws host port why
step-Wf env (decides actor id approve ttl) db w = decide-Wf env actor db w id approve ttl
step-Wf env (records ws host port) db w = record_denial-Wf env ws host port db w
step-Wf env (audits action detail) db w = audit_system-Wf env [] db w action detail

pub empty_db-Wf : Wf empty_db
empty_db-Wf = record {
  zone_ids = tt;
  one_default = omega arith;
  rules = tt;
  assigned_once = tt;
  assigned = tt;
  requests = tt;
  denials = λ v. omega arith;
}

run-Wf_from : (ops : List (Env × Op)) (db : Db) → Wf db → Wf (run ops db)
unfolding run
run-Wf_from [] db w = w
run-Wf_from ((env, op) ∷ ops) db w = run-Wf_from ops (step env op db) (step-Wf env op db w)

-- The invariant holds after every history of calls on the empty database.
pub run-Wf : (ops : List (Env × Op)) → Wf (run ops empty_db)
run-Wf ops = run-Wf_from ops empty_db empty_db-Wf
