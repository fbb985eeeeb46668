-- ===== src/Store/Invariant/Kept.antt =====
-- Every call keeps the invariant, and so does every history of calls.
use sandcastle.Prelude.{◌≡◌, inl, inr, Bool, true, [], Str, find, Bool-cases, Option-cases}
use sandcastle.Prelude.Int.{ℤ}
use sandcastle.Policy.Rules.{Rule, valid_rule}
use sandcastle.Store.Db.{Env, Uuid, Db, Detail}
use sandcastle.Store.Tx.{◌>>=◌}
use sandcastle.Store.Keeps.{
  After, Keeps, Keeps-pure, Keeps-bind, Keeps-as_uuid, run_tx-Keeps, keeps_rules,
}
use sandcastle.Store.Sql.{insert_rule, insert_request}
use sandcastle.Store.Zones.{create_zone, clone_zone, rename_zone, delete_zone}
use sandcastle.Store.Rules.{add_zone_rule, delete_rule, grant_rule}
use sandcastle.Store.Requests.{
  host_rule, file_request, file_new, find_or_file, same_request, decide,
}
use sandcastle.Store.Load.{audit_system}
use sandcastle.Store.Invariant.{Wf}
use sandcastle.Store.Invariant.Writes.{
  audit-Wf, insert_zone-Wf, insert_rule-Wf, insert_request-Wf, update_name-Wf, delete_zone_row-Wf,
  take_rule-Wf, take_pending-Wf,
}
use sandcastle.Store.Invariant.Parts.{grant-Wf, zone_by_id-Wf, refuse_used-Wf, clone_rules-Wf}
use sandcastle.Store.Requests.{new_request}
use sandcastle.Store.Rules.{zone_rule_row}

ruleset wf_calls = (
  keeps_rules, audit-Wf, insert_zone-Wf, update_name-Wf, delete_zone_row-Wf, take_rule-Wf,
  take_pending-Wf, grant-Wf, zone_by_id-Wf, refuse_used-Wf, clone_rules-Wf,
)

module _ (env : Env) (actor : Str) (db : Db) (w : Wf db) where
  pub create_zone-Wf : (name : Str) → Wf (create_zone env actor name db).1
  unfolding create_zone
  create_zone-Wf name = run_tx-Keeps Wf _ db (search wf_calls depth 9) w

  pub clone_zone-Wf : (id name : Str) → Wf (clone_zone env actor id name db).1
  unfolding clone_zone
  clone_zone-Wf id name = run_tx-Keeps Wf _ db (search wf_calls depth 9) w

  pub rename_zone-Wf : (id name : Str) → Wf (rename_zone env actor id name db).1
  unfolding rename_zone
  rename_zone-Wf id name = run_tx-Keeps Wf _ db (search wf_calls depth 9) w

  pub delete_zone-Wf : (id : Str) → Wf (delete_zone env actor id db).1
  unfolding delete_zone
  delete_zone-Wf id = run_tx-Keeps Wf _ db (search wf_calls depth 9) w

  pub delete_rule-Wf : (id : Str) → Wf (delete_rule env actor id db).1
  unfolding delete_rule
  delete_rule-Wf id = run_tx-Keeps Wf _ db (search wf_calls depth 9) w

  pub grant_rule-Wf : (ws : Str) (r : Rule) (ttl : ℤ) → Wf (grant_rule env actor ws r ttl db).1
  unfolding grant_rule
  grant_rule-Wf ws r ttl = run_tx-Keeps Wf _ db (grant-Wf env actor ws r ttl []) w

  pub decide-Wf : (id : Str) (approve : Bool) (ttl : ℤ) → Wf (decide env actor id approve ttl db).1
  unfolding decide
  decide-Wf id approve ttl = run_tx-Keeps Wf _ db (search wf_calls depth 9) w

  pub audit_system-Wf : (action : Str) (detail : Detail) → Wf (audit_system env action detail db).1
  unfolding audit_system
  audit_system-Wf action detail = run_tx-Keeps Wf _ db (audit-Wf env _ action detail) w

  zone_rule-Wf :
      (z : Uuid) (r : Rule)
      → valid_rule r ≡ true
      → Keeps Wf (insert_rule (zone_rule_row env actor z r))
  unfolding zone_rule_row
  zone_rule-Wf z r v = insert_rule-Wf _ v

  pub add_zone_rule-Wf : (zone : Str) (r : Rule) → Wf (add_zone_rule env actor zone r db).1
  unfolding add_zone_rule
  add_zone_rule-Wf zone r = elim (Bool-cases (valid_rule r)) [
    | inr e ↦ rw e w
    | inl e ↦ rw e (
        run_tx-Keeps Wf _ db
          (Keeps-bind _ _ (Keeps-as_uuid env zone)
            (λ z. Keeps-bind _ _ (zone_rule-Wf z r e) (λ x. audit-Wf env actor _ _)))
          w)
  ]

  new_request-Wf :
      (ws : Uuid) (host : Str) (port : ℤ) (why : Str)
      → valid_rule (host_rule host port) ≡ true
      → Keeps Wf (insert_request (new_request env actor ws host port why))
  unfolding new_request
  new_request-Wf ws host port why v = insert_request-Wf _ v

  file_new-Wf :
      (ws_id : Str) (ws : Uuid) (host : Str) (port : ℤ) (why : Str)
      → valid_rule (host_rule host port) ≡ true
      → Keeps Wf (file_new env actor ws_id ws host port why)
  unfolding file_new
  file_new-Wf ws_id ws host port why v =
      Keeps-bind _ _ (new_request-Wf ws host port why v)
        (λ x. Keeps-bind _ _ (audit-Wf env actor _ _) (λ y. Keeps-pure _))

  find_or_file-Wf :
      (ws_id : Str) (ws : Uuid) (host : Str) (port : ℤ) (why : Str)
      → valid_rule (host_rule host port) ≡ true
      → Keeps Wf (find_or_file env actor ws_id ws host port why)
  unfolding find_or_file ◌>>=◌
  find_or_file-Wf ws_id ws host port why v = record {
    at = λ d k. elim (Option-cases (find (same_request ws host port) d.requests)) [
      | inl e ↦ rw (e, find_or_file, After) ((file_new-Wf ws_id ws host port why v).at d k)
      | inr (q, e) ↦ rw (e, find_or_file, After) k
    ];
  }

  pub file_request-Wf :
      (ws host : Str) (port : ℤ) (why : Str) → Wf (file_request env actor ws host port why db).1
  unfolding file_request
  file_request-Wf ws host port why = elim (Bool-cases (valid_rule (host_rule host port))) [
    | inr e ↦ rw e w
    | inl e ↦ rw e (
        run_tx-Keeps Wf _ db
          (Keeps-bind _ _ (Keeps-as_uuid env ws) (λ u. find_or_file-Wf ws u host port why e)) w)
  ]
