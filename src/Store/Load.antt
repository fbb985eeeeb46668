-- ===== src/Store/Load.antt =====
-- `Seed`, `PolicyInput`, `AuditSystem` and `Audit` of admin/internal/store/store.go.
use mathlib.Core.List.{reverse}
use sandcastle.Prelude.{
  ℕ, true, none, some, List, [], ◌∷◌, ◌++◌, Str, codes, keep, take, if◌then◌else◌,
}
use sandcastle.Prelude.Assoc.{Map, put}
use sandcastle.Prelude.Int.{ℤ, pos}
use sandcastle.Prelude.Sort.{sort}
use sandcastle.Policy.Rules.{Rule, Input, host_kind, rules_at}
use sandcastle.Store.Db.{Env, Zone, RuleRow, Assignment, AuditRow, Db, Result, text, texts, Detail}
use sandcastle.Store.Tx.{Tx, pure, ◌>>◌, run_tx, audit}
use sandcastle.Store.Sql.{insert_zone, insert_rule}
use sandcastle.Store.Rules.{opt_text, in_force, rule_lt}

unfoldable pub seed_rule : Env → ℕ → ℤ → RuleRow
seed_rule env n port = record {
  id = env.draw n;
  zone_id = some (env.draw 0);
  workspace_id = none;
  rule = record { kind = host_kind; value = codes "example.com"; port = port };
  expires_at = none;
  created_by = codes "bootstrap";
}

unfoldable pub seed_tx : Env → Tx (Unit {0})
seed_tx env = do
  insert_zone (record { id = env.draw 0; name = codes "default"; is_default = true })
  insert_rule (seed_rule env 1 (pos 443))
  insert_rule (seed_rule env 2 (pos 80))
  audit env (codes "bootstrap") (codes "seed") (
      (codes "zone", text (env.show_uuid (env.draw 0)))
      ∷ (codes "hosts", texts (codes "example.com:443" ∷ codes "example.com:80" ∷ []))
      ∷ [])

-- Seed: nothing where there is a zone.
unfoldable pub seed : Env → Db → Result (Unit {0}) × Db
seed env = run_tx (λ db. elim db.zones [ [] ↦ seed_tx env db | z ∷ zs ↦ pure tt db ])

-- AuditSystem
unfoldable pub audit_system : Env → Str → Detail → Db → Result (Unit {0}) × Db
audit_system env action detail = run_tx (audit env (codes "system") action detail)

-- Audit: newest first.
unfoldable pub audit_list : ℕ → Db → List AuditRow
audit_list limit db = take limit (reverse db.audit)

-- in.ZoneRules[id] = []; and the default zone's id.
unfoldable pub add_zones : Env → List Zone → Input → Input
add_zones env [] p = p
add_zones env (z ∷ zs) p = add_zones env zs (record p {
  default_zone = if z.is_default then env.show_uuid z.id else p.default_zone;
  zone_rules = put (env.show_uuid z.id) [] p.zone_rules;
})

-- m[k] = append(m[k], r)
unfoldable pub push_rule : Str → Rule → Map (List Rule) → Map (List Rule)
push_rule k r m = put k (rules_at k m ++ r ∷ []) m

-- A rule of a zone goes to the zone, another to its workspace.
unfoldable pub add_rule : Env → RuleRow → Input → Input
add_rule env r p = elim (opt_text env r.zone_id) [
  | [] ↦ record p { grants = push_rule (opt_text env r.workspace_id) r.rule p.grants }
  | c ∷ zone ↦ record p { zone_rules = push_rule (c ∷ zone) r.rule p.zone_rules }
]

unfoldable pub add_rules : Env → List RuleRow → Input → Input
add_rules env [] p = p
add_rules env (r ∷ rs) p = add_rules env rs (add_rule env r p)

unfoldable pub add_assignments : Env → List Assignment → Input → Input
add_assignments env [] p = p
add_assignments env (a ∷ as') p =
    add_assignments env as'
      (record p { assign = put (env.show_uuid a.workspace_id) (env.show_uuid a.zone_id) p.assign })

abbrev pub no_policy : Input
no_policy = record { default_zone = []; zone_rules = []; assign = []; grants = []; pods = [] }

-- The rows of the second query, in its order.
unfoldable pub rules_in_force : Env → Db → List RuleRow
rules_in_force env db = sort (λ r q. rule_lt r.rule q.rule) (keep (in_force env.now) db.rules)

-- PolicyInput: three queries outside a transaction, so each reads a database of its own.
unfoldable pub policy_input : Env → Db → Db → Db → Input
policy_input env zones rules assignments =
    add_assignments env assignments.assignments
      (add_rules env (rules_in_force env rules) (add_zones env zones.zones no_policy))
