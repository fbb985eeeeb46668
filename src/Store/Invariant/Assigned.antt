-- ===== src/Store/Invariant/Assigned.antt =====
-- The writes of assignments and of the default mark keep the invariant.
use sandcastle.Prelude.{
  ◌≡◌, ◌≢◌, refl, ◌∙◌, subst, inl, inr, true, false, not, ◌&&◌, none, some, List, [], ◌∷◌, ◌++◌,
  Str, All, In, All-keep, any_of-In, keep, find, find-some, codes, arith, ◌==◌, ==_iff, Bool-cases,
  Option-cases, if◌then◌else◌,
}
use sandcastle.Prelude.Distinct.{Unique, Unique-keep}
use sandcastle.Store.Db.{
  Env, Uuid, Zone, Assignment, Db, Detail, ok, err, invalid, map_err, text, AuditRow, own, pg,
  invalid_text, not_found,
}
use sandcastle.Store.Tx.{Tx, Outcome, done, fail, ◌>>=◌, ◌>>◌, run_tx, settle, as_uuid, audit}
use sandcastle.Store.Keeps.{After, After-or_fail, After-bind}
use sandcastle.Store.Sql.{zone_exists, upsert_row, upsert_assignment}
use sandcastle.Store.Zones.{
  zone_by_id, set_default_zone, clear_defaults, update_default, unassign_zone, mark_default,
  clear_default, assign, place,
}
use sandcastle.Store.Invariant.{is_plain, Wf}
use sandcastle.Store.Invariant.ZoneLists.{
  exists-moved, plain-moved, moved-Unique, defaults-moved, plain-exists,
}
use sandcastle.Store.Invariant.Writes.{IsSound-over, audit-Wf}

-- An assignment to a zone that is there and is not the default.
pub upsert-Wf :
    (a : Assignment) (db : Db)
    → Wf db
    → is_plain a.zone_id db.zones ≡ true
    → Wf (record db { assignments = upsert_row a db.assignments })
unfolding upsert_row
upsert-Wf a db w p = record {
  zone_ids = w.zone_ids;
  one_default = w.one_default;
  rules = w.rules;
  assigned_once = once db.assignments w.assigned_once;
  assigned = plain db.assignments w.assigned;
  requests = w.requests;
  denials = w.denials;
}
  where
    apart :
        (b : Assignment) (rows : List Assignment)
        → (b.workspace_id == a.workspace_id) ≡ false
        → All (λ c. b.workspace_id ≢ c.workspace_id) rows
        → All (λ c. b.workspace_id ≢ c.workspace_id) (upsert_row a rows)
    apart b [] n h = (λ e. ground (arith, ==_iff b.workspace_id a.workspace_id), tt)
    apart b (c ∷ rows) n h = elim (Bool-cases (c.workspace_id == a.workspace_id)) [
      | inl e ↦ rw e ((λ q. ground (arith, ==_iff b.workspace_id a.workspace_id)), h.1)
      | inr e ↦ rw e (h.0, apart b rows n h.1)
    ]

    once :
        (rows : List Assignment)
        → Unique (λ c. c.workspace_id) rows
        → Unique (λ c. c.workspace_id) (upsert_row a rows)
    once [] h = (tt, tt)
    once (b ∷ rows) h = elim (Bool-cases (b.workspace_id == a.workspace_id)) [
      | inl e ↦ rw e (
        subst (λ i. All (λ c. i ≢ c.workspace_id) rows) ((==_iff b.workspace_id a.workspace_id).0 e)
            h.0,
        h.1,
      )
      | inr e ↦ rw e (apart b rows e h.0, once rows h.1)
    ]

    plain :
        (rows : List Assignment)
        → All (λ c. is_plain c.zone_id db.zones ≡ true) rows
        → All (λ c. is_plain c.zone_id db.zones ≡ true) (upsert_row a rows)
    plain [] h = (p, tt)
    plain (b ∷ rows) h = elim (Bool-cases (b.workspace_id == a.workspace_id)) [
      | inl e ↦ rw e (p, h.1)
      | inr e ↦ rw e (h.0, plain rows h.1)
    ]

-- Assignments to zones that all are plain.
unassign_ws-Wf :
    (ws : Uuid) (db : Db)
    → Wf db
    → Wf (record db { assignments = keep (λ a. not (a.workspace_id == ws)) db.assignments })
unassign_ws-Wf ws db w = record {
  zone_ids = w.zone_ids;
  one_default = w.one_default;
  rules = w.rules;
  assigned_once =
      Unique-keep (λ (a : Assignment). a.workspace_id) (λ a. not (a.workspace_id == ws))
        db.assignments w.assigned_once;
  assigned =
      All-keep (λ (a : Assignment). is_plain a.zone_id db.zones ≡ true)
        (λ a. not (a.workspace_id == ws)) db.assignments w.assigned;
  requests = w.requests;
  denials = w.denials;
}

-- `place` with a zone of the database.
pub place-Wf :
    (actor : Str) (ws : Uuid) (zone : Zone) (db : Db)
    → Wf db
    → In zone db.zones
    → After Wf (place actor ws zone db)
unfolding place upsert_assignment ◌>>=◌
place-Wf actor ws zone db w m = elim (Bool-cases zone.is_default) [
  | inl e ↦ rw e (unassign_ws-Wf ws db w)
  | inr e ↦
      let p : is_plain zone.id db.zones ≡ true =
        any_of-In (λ (y : Zone). y.id == zone.id && not y.is_default) zone db.zones m
          (ground (arith, ==_iff zone.id zone.id)) in
      rw (e, plain-exists zone.id db.zones p)
        (upsert-Wf (record { workspace_id = ws; zone_id = zone.id; assigned_by = actor }) db w p)
]

-- The three statements of SetDefaultZone, one after another.
pub moved-Wf :
    (z : Uuid) (db : Db)
    → Wf db
    → zone_exists z db.zones ≡ true
    → Wf (record db {
      zones = mark_default z (clear_default db.zones);
      assignments = keep (λ a. not (a.zone_id == z)) db.assignments;
    })
moved-Wf z db w x = record {
  zone_ids = moved-Unique z db.zones w.zone_ids;
  one_default = omega (arith, defaults-moved z db.zones w.zone_ids x);
  rules = IsSound-over db.zones _ db.rules (λ u h. exists-moved z u db.zones ∙ h) w.rules;
  assigned_once =
      Unique-keep (λ (a : Assignment). a.workspace_id) (λ a. not (a.zone_id == z)) db.assignments
        w.assigned_once;
  assigned = others db.assignments w.assigned;
  requests = w.requests;
  denials = w.denials;
}
  where
    others :
        (rows : List Assignment)
        → All (λ a. is_plain a.zone_id db.zones ≡ true) rows
        → All
            (λ a. is_plain a.zone_id (mark_default z (clear_default db.zones)) ≡ true)
            (keep (λ a. not (a.zone_id == z)) rows)
    others [] h = tt
    others (a ∷ rows) h = elim (Bool-cases (a.zone_id == z)) [
      | inl e ↦ rw e (others rows h.1)
      | inr e ↦ rw e (
        plain-moved z a.zone_id db.zones e (plain-exists a.zone_id db.zones h.0),
        others rows h.1,
      )
    ]

exists-cleared : (z : Uuid) (zs : List Zone) → zone_exists z (clear_default zs) ≡ zone_exists z zs
unfolding zone_exists clear_default
exists-cleared z [] = refl
exists-cleared z (y ∷ zs) = ground (arith, exists-cleared z zs)

-- What SetDefaultZone does, on every path.
pub set_default_zone_lem :
    (env : Env) (actor id : Str) (db : Db)
    → set_default_zone env actor id db ≡ elim (env.parse_uuid id) [
      | none ↦ (err invalid, db)
      | some z ↦
          if zone_exists z db.zones
          then (
            ok tt,
            record db {
              zones = mark_default z (clear_default db.zones);
              assignments = keep (λ a. not (a.zone_id == z)) db.assignments;
              audit =
                  db.audit
                  ++ (record {
                    at = env.now;
                    actor = actor;
                    action = codes "zone_default";
                    detail = (codes "zone", text id) ∷ [];
                  })
                    ∷ [];
            },
          )
          else (err not_found, db)
    ]
unfolding set_default_zone run_tx as_uuid clear_defaults update_default unassign_zone ◌>>=◌ audit
    map_err
set_default_zone_lem env actor id db = elim (Option-cases (env.parse_uuid id)) [
  | inl n ↦ rw n refl
  | inr (z, n) ↦ rw n (ground (arith, exists-cleared z db.zones))
]

-- The log is free.
pub logged-Wf : (d : Db) (rows : List AuditRow) → Wf d → Wf (record d { audit = rows })
logged-Wf d rows w = record {
  zone_ids = w.zone_ids;
  one_default = w.one_default;
  rules = w.rules;
  assigned_once = w.assigned_once;
  assigned = w.assigned;
  requests = w.requests;
  denials = w.denials;
}

pub set_default_zone-Wf :
    (env : Env) (actor id : Str) (db : Db) → Wf db → Wf (set_default_zone env actor id db).1
set_default_zone-Wf env actor id db w =
    rw (set_default_zone_lem env actor id db) (elim (Option-cases (env.parse_uuid id)) [
      | inl n ↦ rw n w
      | inr (z, n) ↦ rw n (elim (Bool-cases (zone_exists z db.zones)) [
        | inl e ↦ rw e (logged-Wf _ _ (moved-Wf z db w e))
        | inr e ↦ rw e w
      ])
    ])

assign_tx-Wf :
    (env : Env) (actor : Str) (ws : Uuid) (zone : Zone) (detail : Detail) (db : Db)
    → Wf db
    → In zone db.zones
    → After Wf ((place actor ws zone >> audit env actor (codes "assign") detail) db)
unfolding ◌>>=◌
assign_tx-Wf env actor ws zone detail db w m =
    After-bind {P = Wf} (place actor ws zone db) (λ x. audit env actor (codes "assign") detail)
      (place-Wf actor ws zone db w m) (λ x. audit-Wf env actor _ _)

settle-Wf : {A : Type 0} (db : Db) (o : Outcome A) → Wf db → After Wf o → Wf (settle db o).1
settle-Wf db (done a d) w h = h
settle-Wf db (fail e) w h = w

pub run_tx-After : {A : Type 0} (m : Tx A) (db : Db) → Wf db → After Wf (m db) → Wf (run_tx m db).1
unfolding run_tx
run_tx-After m db w h = settle-Wf db (m db) w h

pub assign-Wf :
    (env : Env) (actor ws zone : Str) (db : Db) → Wf db → Wf (assign env actor ws zone db).1
unfolding assign as_uuid zone_by_id
assign-Wf env actor ws zone db w = run_tx-After _ db w (
    After-or_fail Wf (env.parse_uuid zone) (pg invalid_text) (λ z. zone_by_id z >>= rest) db
      λ z n.
        unfold ◌>>=◌ in
        (After-or_fail Wf (find (λ y. y.id == z) db.zones) (own not_found) rest db λ y f.
          After-or_fail Wf (env.parse_uuid ws) (pg invalid_text) (put y) db
            λ u g. assign_tx-Wf env actor u y _ db w (find-some _ y db.zones f).0))
  where
    put : Zone → Uuid → Tx (Unit {0})
    put y u = do
      place actor u y
      audit env actor (codes "assign")
          ((codes "workspace", text ws) ∷ (codes "zone", text zone) ∷ [])

    rest : Zone → Tx (Unit {0})
    rest y = as_uuid env ws >>= put y
