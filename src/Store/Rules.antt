-- ===== src/Store/Rules.antt =====
-- The rules and grants of admin/internal/store/zones.go.
use sandcastle.Prelude.{
  ℕ, ◌+◌, Bool, true, false, not, ◌&&◌, ◌||◌, Option, none, some, List, [], ◌∷◌, ◌++◌, Str, codes,
  str_eq, str_lt, ◌==◌, leb, ltb, keep, find, length, if◌then◌else◌,
}
use sandcastle.Prelude.Int.{ℤ, pos, int_lt, pos_part}
use sandcastle.Prelude.Sort.{sort}
use sandcastle.Policy.Rules.{Rule, valid_rule}
use sandcastle.Store.Db.{
  Env, Uuid, Time, RuleRow, Db, Result, err, own, invalid, not_found, text, int, duration, Detail,
}
use sandcastle.Store.Tx.{Tx, pure, guard, or_fail, ◌>>=◌, ◌>>◌, run_tx, as_uuid, audit}
use sandcastle.Store.Sql.{is_some, insert_rule}

-- coalesce(id::text, '')
unfoldable pub opt_text : Env → Option Uuid → Str
opt_text env none = []
opt_text env (some u) = env.show_uuid u

unfoldable pub rule_detail : Rule → Detail
rule_detail r =
    (codes "kind", text r.kind) ∷ (codes "value", text r.value) ∷ (codes "port", int r.port) ∷ []

unfoldable pub zone_rule_row : Env → Str → Uuid → Rule → RuleRow
zone_rule_row env actor z r = record {
  id = env.draw 0;
  zone_id = some z;
  workspace_id = none;
  rule = r;
  expires_at = none;
  created_by = actor;
}

-- AddZoneRule: an invalid rule never reaches the database.
unfoldable pub add_zone_rule : Env → Str → Str → Rule → Db → Result (Unit {0}) × Db
add_zone_rule env actor zone_id r db =
    if valid_rule r
    then run_tx
        (do
          z ← as_uuid env zone_id
          insert_rule (zone_rule_row env actor z r)
          audit env actor (codes "rule_add") ((codes "zone", text zone_id) ∷ rule_detail r))
        db
    else (err invalid, db)

-- DELETE FROM rules WHERE id = $1 RETURNING …
unfoldable pub take_rule : Uuid → Tx RuleRow
take_rule u db =
    (do
      r ← or_fail (find (λ q. q.id == u) db.rules) (own not_found)
      λ d. pure r (record d { rules = keep (λ q. not (q.id == u)) d.rules }))
      db

-- DeleteRule
unfoldable pub delete_rule : Env → Str → Str → Db → Result (Unit {0}) × Db
delete_rule env actor rule_id = run_tx (do
  u ← as_uuid env rule_id
  r ← take_rule u
  audit env actor (codes "rule_delete") (
      (codes "zone", text (opt_text env r.zone_id))
      ∷ (codes "workspace", text (opt_text env r.workspace_id))
      ∷ rule_detail r.rule))

unfoldable pub grant_row : Env → Str → Uuid → Rule → ℤ → RuleRow
grant_row env actor ws r ttl = record {
  id = env.draw 0;
  zone_id = none;
  workspace_id = some ws;
  rule = r;
  expires_at = some (env.now + pos_part ttl);
  created_by = actor;
}

-- The action is "approve" where there is extra detail, which only `Decide` passes.
unfoldable pub grant_action : Detail → Str
grant_action [] = codes "grant"
grant_action (e ∷ extra) = codes "approve"

-- grant
unfoldable pub grant : Env → Str → Str → Rule → ℤ → Detail → Tx (Unit {0})
grant env actor ws_id r ttl extra = do
  guard (valid_rule r && int_lt (pos 0) ttl) (own invalid)
  ws ← as_uuid env ws_id
  insert_rule (grant_row env actor ws r ttl)
  audit env actor (grant_action extra)
      ((codes "workspace", text ws_id) ∷ (rule_detail r ++ (codes "ttl", duration ttl) ∷ extra))

-- Grant
unfoldable pub grant_rule : Env → Str → Str → Rule → ℤ → Db → Result (Unit {0}) × Db
grant_rule env actor ws_id r ttl = run_tx (grant env actor ws_id r ttl [])

-- workspace_id IS NOT NULL AND expires_at <= now()
unfoldable pub has_expired : Time → RuleRow → Bool
has_expired now r =
    is_some r.workspace_id && elim r.expires_at [ none ↦ false | some t ↦ leb t now ]

-- expires_at IS NULL OR expires_at > now()
unfoldable pub in_force : Time → RuleRow → Bool
in_force now r = elim r.expires_at [ none ↦ true | some t ↦ ltb now t ]

unfoldable pub rule_lt : Rule → Rule → Bool
rule_lt r q =
    str_lt r.kind q.kind
    || (str_eq r.kind q.kind
        && (str_lt r.value q.value || (str_eq r.value q.value && int_lt r.port q.port)))

-- workspace_id IS NOT NULL AND expires_at > now()
unfoldable pub live_grant : Time → RuleRow → Bool
live_grant now r = is_some r.workspace_id && elim r.expires_at [ none ↦ false | some t ↦ ltb now t ]

unfoldable pub opt_cmp : (ℕ → ℕ → Bool) → Option Uuid → Option Uuid → Bool
opt_cmp f (some a) (some b) = f a b
opt_cmp f (some a) none = false
opt_cmp f none o = false

-- ORDER BY workspace_id, value
unfoldable pub owner_lt : RuleRow → RuleRow → Bool
owner_lt r q =
    opt_cmp ltb r.workspace_id q.workspace_id
    || (opt_cmp ◌==◌ r.workspace_id q.workspace_id && str_lt r.rule.value q.rule.value)

-- Grants
unfoldable pub grants : Env → Db → List RuleRow
grants env db = sort owner_lt (keep (live_grant env.now) db.rules)

-- One audit row for each expired grant.
unfoldable pub audit_expired : Env → List RuleRow → Tx (Unit {0})
audit_expired env [] = pure tt
audit_expired env (r ∷ gone) =
    audit env (codes "system") (codes "expire")
      ((codes "workspace", text (opt_text env r.workspace_id)) ∷ rule_detail r.rule)
    >> audit_expired env gone

-- ExpireGrants
unfoldable pub expire_grants : Env → Db → Result ℕ × Db
expire_grants env = run_tx (λ db.
    let gone = keep (has_expired env.now) db.rules in
    (audit_expired env gone >> pure (length gone))
      (record db { rules = keep (λ r. not (has_expired env.now r)) db.rules }))
