-- ===== src/Store/Invariant.antt =====
-- What holds of the tables after any history of calls, beyond what the schema alone enforces.
pub mod ZoneLists
pub mod Denials
pub mod Writes
pub mod Parts
pub mod Assigned
pub mod Kept
pub mod History
use sandcastle.Prelude.{
  ℕ, ◌+◌, ◌≤◌, ◌≡◌, Bool, true, not, ◌&&◌, List, [], ◌∷◌, All, any, keep, length, ◌==◌,
  if◌then◌else◌,
}
use sandcastle.Prelude.Distinct.{Unique}
use sandcastle.Policy.Rules.{valid_rule}
use sandcastle.Store.Db.{Uuid, Zone, RuleRow, Assignment, Request, Denial, Db}
use sandcastle.Store.Sql.{rule_checks, zone_ref_ok}
use sandcastle.Store.Requests.{host_rule, max_denials}

-- How many zones are marked as the default.
abbrev pub defaults : List Zone → ℕ
defaults [] = 0
defaults (z ∷ zs) = (if z.is_default then 1 else 0) + defaults zs

-- A zone that is there and is not the default.
abbrev pub is_plain : Uuid → List Zone → Bool
is_plain u zs = any (λ z. z.id == u && not z.is_default) zs

-- A rule passes `ValidRule`, has an owner and an expiry as the schema asks, and its zone exists.
pub record IsSound (zs : List Zone) (r : RuleRow) : Type 0 where
  pub valid : valid_rule r.rule ≡ true
  pub checked : rule_checks r ≡ true
  pub zone_there : zone_ref_ok r.zone_id zs ≡ true

pub record Wf (db : Db) : Type 0 where
  pub zone_ids : Unique (λ z. z.id) db.zones
  pub one_default : defaults db.zones ≤ 1
  pub rules : All (IsSound db.zones) db.rules
  pub assigned_once : Unique (λ a. a.workspace_id) db.assignments
  pub assigned : All (λ a. is_plain a.zone_id db.zones ≡ true) db.assignments
  pub requests : All (λ q. valid_rule (host_rule q.host q.port) ≡ true) db.requests
  pub denials : (ws : Uuid) → length (keep (λ d. d.workspace_id == ws) db.denials) ≤ max_denials
