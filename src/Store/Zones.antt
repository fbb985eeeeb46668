-- ===== src/Store/Zones.antt =====
-- The zone operations of admin/internal/store/zones.go.
use sandcastle.Prelude.{
  ℕ, suc, Bool, true, false, not, ◌&&◌, ◌||◌, none, some, List, [], ◌∷◌, Str, codes, str_eq, str_lt,
  ◌==◌, any, keep, find, map, if◌then◌else◌,
}
use sandcastle.Prelude.Sort.{sort}
use sandcastle.Store.Db.{
  Env, Uuid, Zone, RuleRow, Assignment, Db, Result, own, pg, conflict, not_found, check_violation,
  unique_violation, foreign_key_violation, text,
}
use sandcastle.Store.Tx.{Tx, pure, guard, or_fail, ◌>>=◌, ◌>>◌, run_tx, as_uuid, audit}
use sandcastle.Store.Rules.{rule_lt}
use sandcastle.Store.Sql.{
  valid_zone_name, opt_is, zone_exists, insert_zone, insert_rule, upsert_assignment,
}

-- A query for one zone; no row is `ErrNoRows`, which each caller turns into `ErrNotFound`.
unfoldable pub zone_by_id : Uuid → Tx Zone
zone_by_id z db = or_fail (find (λ y. y.id == z) db.zones) (own not_found) db

unfoldable pub is_assigned : Uuid → List Assignment → Bool
is_assigned z as' = any (λ a. a.zone_id == z) as'

-- CreateZone
unfoldable pub create_zone : Env → Str → Str → Db → Result Uuid × Db
create_zone env actor name = run_tx (do
  insert_zone (record { id = env.draw 0; name = name; is_default = false })
  audit env actor (codes "zone_create")
      ((codes "zone", text (env.show_uuid (env.draw 0))) ∷ (codes "name", text name) ∷ [])
  pure (env.draw 0))

-- INSERT INTO rules … SELECT … FROM rules WHERE zone_id = $3: one fresh uuid for each row.
unfoldable pub copy_rules : Env → Str → Uuid → ℕ → List RuleRow → Tx (Unit {0})
copy_rules env actor z n [] = pure tt
copy_rules env actor z n (r ∷ rows) =
    insert_rule (record {
      id = env.draw n;
      zone_id = some z;
      workspace_id = none;
      rule = r.rule;
      expires_at = none;
      created_by = actor;
    })
    >> copy_rules env actor z (suc n) rows

-- The rules of `src` that the copy starts from.
unfoldable pub clone_rules : Env → Str → Uuid → Uuid → Tx (Unit {0})
clone_rules env actor z src db =
    copy_rules env actor z 1 (keep (λ r. opt_is src r.zone_id) db.rules) db

-- CloneZone
unfoldable pub clone_zone : Env → Str → Str → Str → Db → Result Uuid × Db
clone_zone env actor src_id name = run_tx (do
  src ← as_uuid env src_id
  zone_by_id src
  insert_zone (record { id = env.draw 0; name = name; is_default = false })
  clone_rules env actor (env.draw 0) src
  audit env actor (codes "zone_clone") (
      (codes "zone", text (env.show_uuid (env.draw 0)))
      ∷ (codes "from", text src_id)
      ∷ (codes "name", text name)
      ∷ [])
  pure (env.draw 0))

unfoldable pub set_name : Uuid → Str → List Zone → List Zone
set_name z name [] = []
set_name z name (y ∷ zs) = (if y.id == z then record y { name = name } else y) ∷ set_name z name zs

-- UPDATE zones SET name = $1 WHERE id = $2, its check and its unique index included.
unfoldable pub update_name : Uuid → Str → Tx (Unit {0})
update_name z name db =
    (do
      guard (zone_exists z db.zones) (own not_found)
      guard (valid_zone_name name) (pg check_violation)
      guard (not (any (λ y. not (y.id == z) && str_eq y.name name) db.zones)) (pg unique_violation)
      λ d. pure tt (record d { zones = set_name z name d.zones }))
      db

-- RenameZone
unfoldable pub rename_zone : Env → Str → Str → Str → Db → Result (Unit {0}) × Db
rename_zone env actor id name = run_tx (do
  z ← as_uuid env id
  update_name z name
  audit env actor (codes "zone_rename") ((codes "zone", text id) ∷ (codes "name", text name) ∷ []))

-- DELETE FROM zones WHERE id = $1: its rules go with it, and an assignment to it refuses.
unfoldable pub delete_zone_row : Uuid → Tx (Unit {0})
delete_zone_row z db =
    (do
      guard (not (is_assigned z db.assignments)) (pg foreign_key_violation)
      λ d. pure tt (record d {
        zones = keep (λ y. not (y.id == z)) d.zones;
        rules = keep (λ r. not (opt_is z r.zone_id)) d.rules;
      }))
      db

-- The default zone and zones with assigned workspaces are refused.
unfoldable pub refuse_used : Zone → Uuid → Tx (Unit {0})
refuse_used zone z db =
    guard (not (zone.is_default || is_assigned z db.assignments)) (own conflict) db

-- DeleteZone
unfoldable pub delete_zone : Env → Str → Str → Db → Result (Unit {0}) × Db
delete_zone env actor id = run_tx (do
  z ← as_uuid env id
  zone ← zone_by_id z
  refuse_used zone z
  delete_zone_row z
  audit env actor (codes "zone_delete") ((codes "zone", text id) ∷ []))

unfoldable pub clear_default : List Zone → List Zone
clear_default [] = []
clear_default (y ∷ zs) = record y { is_default = false } ∷ clear_default zs

unfoldable pub mark_default : Uuid → List Zone → List Zone
mark_default z [] = []
mark_default z (y ∷ zs) =
    (if y.id == z then record y { is_default = true } else y) ∷ mark_default z zs

-- UPDATE zones SET is_default = false WHERE is_default
unfoldable pub clear_defaults : Tx (Unit {0})
clear_defaults d = pure tt (record d { zones = clear_default d.zones })

-- UPDATE zones SET is_default = true WHERE id = $1, through `one`
unfoldable pub update_default : Uuid → Tx (Unit {0})
update_default z d =
    (guard (zone_exists z d.zones) (own not_found) >> pure tt)
      (record d { zones = mark_default z d.zones })

-- DELETE FROM assignments WHERE zone_id = $1
unfoldable pub unassign_zone : Uuid → Tx (Unit {0})
unassign_zone z d =
    pure tt (record d { assignments = keep (λ a. not (a.zone_id == z)) d.assignments })

-- SetDefaultZone: the three statements in one transaction.
unfoldable pub set_default_zone : Env → Str → Str → Db → Result (Unit {0}) × Db
set_default_zone env actor id = run_tx (do
  clear_defaults
  z ← as_uuid env id
  update_default z
  unassign_zone z
  audit env actor (codes "zone_default") ((codes "zone", text id) ∷ []))

-- The write of `Assign`: no row for the default zone.
unfoldable pub place : Str → Uuid → Zone → Tx (Unit {0})
place actor ws zone =
    if zone.is_default
    then (λ d.
        pure tt (record d { assignments = keep (λ a. not (a.workspace_id == ws)) d.assignments }))
    else upsert_assignment (record { workspace_id = ws; zone_id = zone.id; assigned_by = actor })

-- Assign
unfoldable pub assign : Env → Str → Str → Str → Db → Result (Unit {0}) × Db
assign env actor ws_id zone_id = run_tx (do
  z ← as_uuid env zone_id
  zone ← zone_by_id z
  ws ← as_uuid env ws_id
  place actor ws zone
  audit env actor (codes "assign")
      ((codes "workspace", text ws_id) ∷ (codes "zone", text zone_id) ∷ []))

-- A row of `Zones`: the zone, its rules and its assigned workspaces.
pub record ZoneView : Type 0 where
  pub zone : Zone
  pub rules : List RuleRow
  pub members : List Uuid

-- ORDER BY z.is_default DESC, z.name
unfoldable pub zone_lt : Zone → Zone → Bool
zone_lt y z =
    if y.is_default
    then (if z.is_default then str_lt y.name z.name else true)
    else (if z.is_default then false else str_lt y.name z.name)

-- Zones: the zones with their assignments, and then the rules, are two queries, each of a database
-- of its own.
unfoldable pub zone_view : Db → Db → Zone → ZoneView
zone_view zones rules z = record {
  zone = z;
  rules = sort (λ r q. rule_lt r.rule q.rule) (keep (λ r. opt_is z.id r.zone_id) rules.rules);
  members = map (λ a. a.workspace_id) (keep (λ a. a.zone_id == z.id) zones.assignments);
}

unfoldable pub zone_views : Db → Db → List ZoneView
unfolding zone_view
zone_views zones rules = map (zone_view zones rules) (sort zone_lt zones.zones)
