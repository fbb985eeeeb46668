-- ===== src/Store/Sql.antt =====
-- The inserts, with the checks, keys and references of admin/internal/store/migrations/001_init.sql
-- in the order in which Postgres tests them: checks, then unique indexes, then references.
use sandcastle.Prelude.{
  Bool, true, false, not, ◌&&◌, ◌||◌, Option, none, some, List, [], ◌∷◌, ◌++◌, Str, str_eq, ◌==◌,
  leb, any, length, if◌then◌else◌,
}
use sandcastle.Prelude.Int.{pos, int_eq}
use sandcastle.Prelude.Regex.{Regex, cls, seq, rep, matches}
use sandcastle.Policy.Name.{is_alnum, is_label_char}
use sandcastle.Policy.Rules.{Rule, host_kind, dns_kind}
use sandcastle.Store.Db.{
  Uuid, Zone, RuleRow, Assignment, Request, pg, unique_violation, foreign_key_violation,
  check_violation,
}
use sandcastle.Store.Tx.{Tx, pure, guard, ◌>>◌}

-- ^[a-z0-9][a-z0-9-]{0,40}$
unfoldable pub zone_name_re : Regex
unfolding rep is_label_char
zone_name_re = seq (cls is_alnum) (rep 0 40 (cls is_label_char))

unfoldable pub valid_zone_name : Str → Bool
unfolding matches zone_name_re
valid_zone_name s = matches zone_name_re s

unfoldable pub opt_is : Uuid → Option Uuid → Bool
opt_is u none = false
opt_is u (some v) = v == u

unfoldable pub is_some {ℓ} : {A : Type ℓ} → Option A → Bool
is_some none = false
is_some (some a) = true

unfoldable pub zone_exists : Uuid → List Zone → Bool
zone_exists z zs = any (λ y. y.id == z) zs

unfoldable pub same_rule : Rule → Rule → Bool
same_rule r q = str_eq r.kind q.kind && (str_eq r.value q.value && int_eq r.port q.port)

unfoldable pub insert_zone : Zone → Tx (Unit {0})
insert_zone z db =
    (do
      guard (valid_zone_name z.name) (pg check_violation)
      guard (not (any (λ y. y.id == z.id || str_eq y.name z.name) db.zones)) (pg unique_violation)
      guard (not (z.is_default && any (λ y. y.is_default) db.zones)) (pg unique_violation)
      λ d. pure tt (record d { zones = d.zones ++ z ∷ [] }))
      db

-- The checks on kind and port, on the owner, and on the expiry of grants.
unfoldable pub rule_checks : RuleRow → Bool
rule_checks r =
    ((str_eq r.rule.kind host_kind && (int_eq r.rule.port (pos 80) || int_eq r.rule.port (pos 443)))
      || (str_eq r.rule.kind dns_kind && int_eq r.rule.port (pos 0)))
    && ((if is_some r.zone_id then not (is_some r.workspace_id) else is_some r.workspace_id)
        && (not (is_some r.workspace_id) || is_some r.expires_at))

-- The partial unique index on a zone's rules.
unfoldable pub same_zone_rule : RuleRow → RuleRow → Bool
same_zone_rule r q = elim r.zone_id [
  | none ↦ false
  | some z ↦ opt_is z q.zone_id && same_rule r.rule q.rule
]

unfoldable pub zone_ref_ok : Option Uuid → List Zone → Bool
zone_ref_ok none zs = true
zone_ref_ok (some z) zs = zone_exists z zs

unfoldable pub insert_rule : RuleRow → Tx (Unit {0})
insert_rule r db =
    (do
      guard (rule_checks r) (pg check_violation)
      guard (not (any (λ q. q.id == r.id || same_zone_rule r q) db.rules)) (pg unique_violation)
      guard (zone_ref_ok r.zone_id db.zones) (pg foreign_key_violation)
      λ d. pure tt (record d { rules = d.rules ++ r ∷ [] }))
      db

-- port IN (80, 443), and 1 to 2000 characters of justification.
unfoldable pub request_checks : Request → Bool
request_checks q =
    (int_eq q.port (pos 80) || int_eq q.port (pos 443))
    && (leb 1 (length q.justification) && leb (length q.justification) 2000)

unfoldable pub insert_request : Request → Tx (Unit {0})
insert_request q db =
    (do
      guard (request_checks q) (pg check_violation)
      guard (not (any (λ r. r.id == q.id) db.requests)) (pg unique_violation)
      λ d. pure tt (record d { requests = d.requests ++ q ∷ [] }))
      db

unfoldable pub upsert_row : Assignment → List Assignment → List Assignment
upsert_row a [] = a ∷ []
upsert_row a (b ∷ rows) =
    if b.workspace_id == a.workspace_id then a ∷ rows else b ∷ upsert_row a rows

-- INSERT … ON CONFLICT (workspace_id) DO UPDATE.
unfoldable pub upsert_assignment : Assignment → Tx (Unit {0})
upsert_assignment a db =
    (do
      guard (zone_exists a.zone_id db.zones) (pg foreign_key_violation)
      λ d. pure tt (record d { assignments = upsert_row a d.assignments }))
      db
