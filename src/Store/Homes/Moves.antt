-- ===== src/Store/Homes/Moves.antt =====
-- `Assign` and `SetDefaultZone` of admin/internal/store/zones.go move workspaces between zones.
use sandcastle.Prelude.{
  ◌≤◌, ◌≡◌, ◌≢◌, refl, sym, ap, ◌∙◌, inl, inr, true, not, Option, none, some, List, [], ◌∷◌, ◌++◌,
  Str, codes, ◌==◌, ==_iff, keep, find, find-some, any_of-In, arith, Bool-cases, if◌then◌else◌, All,
  In, subst,
}
use sandcastle.Store.Db.{Env, Uuid, Zone, Assignment, Db, ok, text}
use sandcastle.Store.Tx.{done, ◌>>=◌, run_tx, settle, as_uuid, audit, bind_done, as_uuid-done}
use sandcastle.Store.Sql.{zone_exists, upsert_assignment, upsert_row}
use sandcastle.Store.Zones.{
  assign, place, zone_by_id, set_default_zone, mark_default, clear_default,
}
use sandcastle.Store.Invariant.{Wf, defaults}
use sandcastle.Store.Invariant.ZoneLists.{defaults-moved}
use sandcastle.Store.Invariant.Assigned.{set_default_zone_lem}
use sandcastle.Prelude.Distinct.{Unique}
use sandcastle.Store.Homes.{assigned_to-absent, home, default_id, assigned_to, or_else}

find-exists :
    (z : Uuid) (zs : List Zone)
    → zone_exists z zs ≡ true
    → (y : Zone) × (find (λ x. x.id == z) zs ≡ some y)
unfolding zone_exists
find-exists z [] h = absurd (cc)
find-exists z (x ∷ zs) h = elim (Bool-cases (x.id == z)) [
  | inl e ↦ rw e (x, refl)
  | inr e ↦ rw e (find-exists z zs (rw e at h))
]

default_id-In :
    (y : Zone) (zs : List Zone)
    → In y zs
    → y.is_default ≡ true
    → defaults zs ≤ 1
    → default_id zs ≡ some y.id
default_id-In y [] m d h = elim m [ ]
default_id-In y (x ∷ zs) (inl q) d h =
    ground (arith, ap (λ (v : Zone). v.id) q, ap (λ (v : Zone). v.is_default) q)
default_id-In y (x ∷ zs) (inr m) d h = elim (Bool-cases x.is_default) [
  | inr e ↦ rw e (default_id-In y zs m d (ground arith))
  | inl e ↦ absurd (let k = counted zs m in ground arith)
]
  where
    counted : (xs : List Zone) → In y xs → 1 ≤ defaults xs
    counted [] n = elim n [ ]
    counted (v ∷ xs) (inl q) = ground (arith, ap (λ (u : Zone). u.is_default) q)
    counted (v ∷ xs) (inr n) = omega (arith, counted xs n)

-- The assignments after `place`.
abbrev placed : Str → Uuid → Zone → List Assignment → List Assignment
placed actor ws y rows =
    if y.is_default
    then keep (λ a. not (a.workspace_id == ws)) rows
    else upsert_row (record { workspace_id = ws; zone_id = y.id; assigned_by = actor }) rows

assigned_to-kept :
    (ws : Uuid) (rows : List Assignment)
    → assigned_to ws (keep (λ a. not (a.workspace_id == ws)) rows) ≡ none
assigned_to-kept ws [] = refl
assigned_to-kept ws (a ∷ rows) = ground (arith, assigned_to-kept ws rows)

assigned_to-others :
    (ws v : Uuid) (rows : List Assignment)
    → v ≢ ws
    → assigned_to v (keep (λ a. not (a.workspace_id == ws)) rows) ≡ assigned_to v rows
assigned_to-others ws v [] n = refl
assigned_to-others ws v (a ∷ rows) n =
    ground
      (arith, assigned_to-others ws v rows n, ==_iff a.workspace_id ws, ==_iff a.workspace_id v)

assigned_to-upsert :
    (a : Assignment) (rows : List Assignment)
    → assigned_to a.workspace_id (upsert_row a rows) ≡ some a.zone_id
unfolding upsert_row
assigned_to-upsert a [] = rw ((==_iff a.workspace_id a.workspace_id).1 refl) refl
assigned_to-upsert a (b ∷ rows) =
    ground (arith, assigned_to-upsert a rows, ==_iff a.workspace_id a.workspace_id)

assigned_to-upsert_others :
    (a : Assignment) (v : Uuid) (rows : List Assignment)
    → v ≢ a.workspace_id
    → assigned_to v (upsert_row a rows) ≡ assigned_to v rows
unfolding upsert_row
assigned_to-upsert_others a v [] n = ground (arith, ==_iff a.workspace_id v)
assigned_to-upsert_others a v (b ∷ rows) n = ground (
  arith,
  assigned_to-upsert_others a v rows n,
  ==_iff a.workspace_id v,
  ==_iff b.workspace_id v,
  ==_iff b.workspace_id a.workspace_id,
)

home-placed :
    (actor : Str) (ws : Uuid) (y : Zone) (db : Db)
    → Wf db
    → In y db.zones
    → or_else (assigned_to ws (placed actor ws y db.assignments)) (default_id db.zones) ≡ some y.id
home-placed actor ws y db w m = elim (Bool-cases y.is_default) [
  | inl e ↦ rw (e, assigned_to-kept ws db.assignments) (default_id-In y db.zones m e w.one_default)
  | inr e ↦
      rw
        (
          e,
          assigned_to-upsert (record { workspace_id = ws; zone_id = y.id; assigned_by = actor })
              db.assignments,
        )
        refl
]

others-placed :
    (actor : Str) (ws v : Uuid) (y : Zone) (rows : List Assignment)
    → v ≢ ws
    → assigned_to v (placed actor ws y rows) ≡ assigned_to v rows
others-placed actor ws v y rows n = elim (Bool-cases y.is_default) [
  | inl e ↦ rw e (assigned_to-others ws v rows n)
  | inr e ↦ rw e (
      assigned_to-upsert_others (record { workspace_id = ws; zone_id = y.id; assigned_by = actor })
        v rows n)
]

place-done :
    (actor : Str) (ws : Uuid) (y : Zone) (db : Db)
    → In y db.zones
    → place actor ws y db ≡ done tt (record db { assignments = placed actor ws y db.assignments })
unfolding place upsert_assignment zone_exists ◌>>=◌
place-done actor ws y db m = elim (Bool-cases y.is_default) [
  | inl e ↦ rw e refl
  | inr e ↦
      rw (e, any_of-In (λ (x : Zone). x.id == y.id) y db.zones m ((==_iff y.id y.id).1 refl)) refl
]

zone_by_id-done :
    (z : Uuid) (y : Zone) (db : Db)
    → find (λ x. x.id == z) db.zones ≡ some y
    → zone_by_id z db ≡ done y db
unfolding zone_by_id ◌>>=◌
zone_by_id-done z y db f = rw f refl

assign-done :
    (env : Env) (actor ws_id zone_id : Str) (ws z : Uuid) (y : Zone) (db : Db)
    → env.parse_uuid ws_id ≡ some ws
    → env.parse_uuid zone_id ≡ some z
    → find (λ x. x.id == z) db.zones ≡ some y
    → assign env actor ws_id zone_id db ≡ (
      ok tt,
      record db {
        assignments = placed actor ws y db.assignments;
        audit =
            db.audit
            ++ (record {
              at = env.now;
              actor = actor;
              action = codes "assign";
              detail = (codes "workspace", text ws_id) ∷ (codes "zone", text zone_id) ∷ [];
            })
              ∷ [];
      },
    )
unfolding assign run_tx audit
assign-done env actor ws_id zone_id ws z y db a b f = ap (settle db) (
    bind_done (as_uuid env zone_id) _ db db z (as_uuid-done env zone_id z db b)
    ∙ bind_done (zone_by_id z) _ db db y (zone_by_id-done z y db f)
    ∙ bind_done (as_uuid env ws_id) _ db db ws (as_uuid-done env ws_id ws db a)
    ∙ bind_done (place actor ws y) _ db _ tt
        (place-done actor ws y db (find-some (λ x. x.id == z) y db.zones f).0))

-- Where the ids are well-formed and the zone exists, Assign succeeds: the workspace is in that zone
-- from then on, whether it is the default or not, and every other workspace `v` stays where it was.
pub assign-home :
    (env : Env) (actor ws_id zone_id : Str) (ws z v : Uuid) (db : Db)
    → Wf db
    → env.parse_uuid ws_id ≡ some ws
    → env.parse_uuid zone_id ≡ some z
    → zone_exists z db.zones ≡ true
    → v ≢ ws
    → ((assign env actor ws_id zone_id db).0 ≡ ok tt)
      × (home (assign env actor ws_id zone_id db).1 ws ≡ some z)
      × (home (assign env actor ws_id zone_id db).1 v ≡ home db v)
assign-home env actor ws_id zone_id ws z v db w a b x n =
    let (y, f) = find-exists z db.zones x in
    let (m, e) = find-some (λ x. x.id == z) y db.zones f in
    rw (assign-done env actor ws_id zone_id ws z y db a b f) (
      refl,
      home-placed actor ws y db w m ∙ ap some ((==_iff y.id z).0 e),
      ap (λ (o : Option Uuid). or_else o (default_id db.zones))
          (others-placed actor ws v y db.assignments n),
    )

default_id-moved :
    (z : Uuid) (zs : List Zone)
    → zone_exists z zs ≡ true
    → default_id (mark_default z (clear_default zs)) ≡ some z
unfolding zone_exists mark_default clear_default
default_id-moved z [] h = absurd (cc)
default_id-moved z (y ∷ zs) h = ground (arith, ==_iff y.id z, default_id-moved z zs)

-- A workspace that was assigned to the new default needs no row.
home-unassigned :
    (z v : Uuid) (rows : List Assignment)
    → Unique (λ a. a.workspace_id) rows
    → or_else (assigned_to v (keep (λ a. not (a.zone_id == z)) rows)) (some z)
      ≡ or_else (assigned_to v rows) (some z)
home-unassigned z v [] u = refl
home-unassigned z v (a ∷ rows) u = elim (Bool-cases (a.zone_id == z)) [
  | inr e ↦ rw e (elim (Bool-cases (a.workspace_id == v)) [
    | inl f ↦ rw f refl
    | inr f ↦ rw f (home-unassigned z v rows u.1)
  ])
  | inl e ↦ rw e (elim (Bool-cases (a.workspace_id == v)) [
    | inr f ↦ rw f (home-unassigned z v rows u.1)
    | inl f ↦ rw f (
        home-unassigned z v rows u.1
        ∙ ap (λ (o : Option Uuid). or_else o (some z))
            (assigned_to-absent v rows
              (subst (λ w. All (λ b. w ≢ b.workspace_id) rows) ((==_iff a.workspace_id v).0 f) u.0))
        ∙ ap some (sym ((==_iff a.zone_id z).0 e)))
  ])
]

-- Where the id is well-formed and the zone exists, SetDefaultZone succeeds: exactly one zone is the
-- default, it is that one, every workspace that was assigned to another zone stays there, and every
-- other workspace is in the new default.
pub set_default_zone-home :
    (env : Env) (actor id : Str) (z : Uuid) (db : Db)
    → Wf db
    → env.parse_uuid id ≡ some z
    → zone_exists z db.zones ≡ true
    → ((set_default_zone env actor id db).0 ≡ ok tt)
      × (defaults (set_default_zone env actor id db).1.zones ≡ 1)
      × ((v : Uuid)
          → home (set_default_zone env actor id db).1 v
            ≡ or_else (assigned_to v db.assignments) (some z))
set_default_zone-home env actor id z db w a x =
    rw (set_default_zone_lem env actor id db, a, x)
      (
        refl,
        defaults-moved z db.zones w.zone_ids x,
        λ v.
            ap
              (λ (o : Option Uuid).
                or_else (assigned_to v (keep (λ b. not (b.zone_id == z)) db.assignments)) o)
              (default_id-moved z db.zones x)
            ∙ home-unassigned z v db.assignments w.assigned_once,
      )
