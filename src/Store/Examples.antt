-- ===== src/Store/Examples.antt =====
-- The store's theorems at a small database.
use sandcastle.Prelude.{
  ◌↔◌, In, ℕ, ◌+◌, ◌≤◌, ◌≡◌, refl, true, false, not, Option, none, some, [], ◌∷◌, ◌++◌, Str, codes,
  str_eq, keep, length, map, arith, ◌==◌,
}
use sandcastle.Prelude.Int.{pos, int_eq, int_lt}
use sandcastle.Policy.Name.{valid_name}
use sandcastle.Policy.Rules.{Rule, host_kind, valid_rule, rules_at, zone_of}
use sandcastle.Store.Db.{
  Env, Uuid, ReadsBack, Zone, RuleRow, pending, Request, Denial, Db, Result, ok, err, conflict,
  empty_db,
}
use sandcastle.Store.Sql.{
  rule_checks, zone_ref_ok, zone_exists, is_some, opt_is, insert_rule, insert_request,
  request_checks, same_zone_rule,
}
use sandcastle.Store.Zones.{assign, set_default_zone}
use sandcastle.Store.Tx.{run_tx, as_uuid, audit, ◌>>=◌}
use sandcastle.Store.Rules.{
  grant, grant_row, rule_detail, grant_action, expire_grants, has_expired, opt_text,
}
use sandcastle.Store.Requests.{
  decide, file_request, find_or_file, file_new, new_request, same_request, take_pending, decide_row,
  is_pending, cap_denials, max_denials,
}
use sandcastle.Store.Load.{policy_input}
use sandcastle.Store.Ops.{seeds, expires, assigns, deletes_zone, step, run}
use sandcastle.Store.Audited.{Logged, Extends}
use sandcastle.Store.Audited.History.{step-Logged, run-Extends}
use sandcastle.Store.Expiry.{
  expire_grants-IsExpired, has_expired-IsExpired, policy_input-expire_grants, expiry_row,
}
use sandcastle.Store.Invariant.{Wf, defaults, IsSound}
use sandcastle.Store.Invariant.Denials.{cap_denials_bound}
use sandcastle.Store.Invariant.History.{step-Wf, run-Wf}
use sandcastle.Store.InForce.{InForce, policy_input-InForce}
use sandcastle.Store.Homes.{home, assigned_to, or_else, policy_input-home}
use sandcastle.Store.Homes.Moves.{assign-home, set_default_zone-home}
use sandcastle.Store.Migrate.{sql_literal, read_literal, read_literal-sql_literal}
use sandcastle.Store.Filing.{file_request_again}
use sandcastle.Store.Decisions.{Decided, decide-Decided, decide_again}

abbrev parse : Str → Option Uuid
parse [] = none
parse (c ∷ []) = some c
parse (c ∷ d ∷ s) = none

-- A uuid is written as one character.
abbrev at_time : ℕ → Env
at_time t = record { now = t; draw = λ n. 100 + n; parse_uuid = parse; show_uuid = λ u. u ∷ [] }

at_time-ReadsBack : (t : ℕ) → ReadsBack (at_time t)
at_time-ReadsBack t = record { parse-show = λ u. refl; show-ne_nil = λ u e. absurd (cc) }

abbrev main_zone : Zone
main_zone = record { id = 1; name = codes "default"; is_default = true }

abbrev web_zone : Zone
web_zone = record { id = 2; name = codes "web"; is_default = false }

abbrev git_rule : Rule
git_rule = record { kind = host_kind; value = codes "git.io"; port = pos 443 }

abbrev zone_row : RuleRow
zone_row = record {
  id = 10;
  zone_id = some 2;
  workspace_id = none;
  rule = git_rule;
  expires_at = none;
  created_by = codes "ann";
}

abbrev old_grant : RuleRow
old_grant = record {
  id = 11;
  zone_id = none;
  workspace_id = some 7;
  rule = git_rule;
  expires_at = some 40;
  created_by = codes "ann";
}

abbrev asked : Request
asked = record {
  id = 9;
  workspace_id = 7;
  host = codes "git.io";
  port = pos 443;
  justification = codes "build";
  requester = codes "bob";
  status = pending;
  decided_by = none;
  ttl = none;
  created_at = 30;
  decided_at = none;
}

abbrev sample : Db
sample = record {
  zones = main_zone ∷ web_zone ∷ [];
  rules = zone_row ∷ old_grant ∷ [];
  assignments = record { workspace_id = 7; zone_id = 2; assigned_by = codes "ann" } ∷ [];
  requests = asked ∷ [];
  denials = [];
  audit = [];
}

git_rule-valid : valid_rule git_rule ≡ true
unfolding valid_rule valid_name codes host_kind int_eq str_eq
git_rule-valid = refl

zone_row-IsSound : IsSound sample.zones zone_row
unfolding rule_checks zone_ref_ok zone_exists codes host_kind int_eq is_some str_eq
zone_row-IsSound = record { valid = git_rule-valid; checked = refl; zone_there = refl }

old_grant-IsSound : IsSound sample.zones old_grant
unfolding rule_checks zone_ref_ok zone_exists codes host_kind int_eq is_some str_eq
old_grant-IsSound = record { valid = git_rule-valid; checked = refl; zone_there = refl }

sample-Wf : Wf sample
sample-Wf = record {
  zone_ids = ((λ e. absurd (omega (arith, e)), tt), (tt, tt));
  one_default = omega arith;
  rules = (zone_row-IsSound, (old_grant-IsSound, tt));
  assigned_once = (tt, tt);
  assigned = (refl, tt);
  requests = (git_rule-valid, tt);
  denials = λ v. omega arith;
}

step-Wf_example : Wf (step (at_time 50) (assigns (codes "ann") (8 ∷ []) (2 ∷ [])) sample)
step-Wf_example = step-Wf (at_time 50) (assigns (codes "ann") (8 ∷ []) (2 ∷ [])) sample sample-Wf

run-Wf_example :
    Wf (
      run ((at_time 50, seeds) ∷ (at_time 60, deletes_zone (codes "ann") (100 ∷ [])) ∷ []) empty_db)
run-Wf_example =
    run-Wf ((at_time 50, seeds) ∷ (at_time 60, deletes_zone (codes "ann") (100 ∷ [])) ∷ [])

step-Logged_example : Logged sample (step (at_time 50) (deletes_zone (codes "ann") (2 ∷ [])) sample)
step-Logged_example = step-Logged (at_time 50) (deletes_zone (codes "ann") (2 ∷ [])) sample

run-Extends_example : Extends sample (run ((at_time 50, expires) ∷ (at_time 60, seeds) ∷ []) sample)
run-Extends_example = run-Extends ((at_time 50, expires) ∷ (at_time 60, seeds) ∷ []) sample

expire_grants-IsExpired_example : expire_grants (at_time 50) sample ≡ (
  ok (length (keep (has_expired 50) sample.rules)),
  record sample {
    rules = keep (λ r. not (has_expired 50 r)) sample.rules;
    audit = sample.audit ++ map (expiry_row (at_time 50)) (keep (has_expired 50) sample.rules);
  },
)
expire_grants-IsExpired_example =
    expire_grants-IsExpired (at_time 50) sample (has_expired 50) (has_expired-IsExpired 50)

policy_input-expire_grants_example :
    policy_input (at_time 60) sample (expire_grants (at_time 50) sample).1 sample
    ≡ policy_input (at_time 60) sample sample sample
policy_input-expire_grants_example =
    policy_input-expire_grants (at_time 50) (at_time 60) sample sample sample (omega arith)

policy_input-InForce_example :
    (In git_rule (rules_at (2 ∷ []) (policy_input (at_time 30) sample sample sample).zone_rules)
      ↔ InForce (at_time 30) sample (λ row. row.zone_id ≡ some 2) git_rule)
    × (In git_rule (rules_at (2 ∷ []) (policy_input (at_time 30) sample sample sample).grants)
        ↔ InForce
            (at_time 30)
            sample
            (λ row. (row.zone_id ≡ none) × (row.workspace_id ≡ some 2))
            git_rule)
policy_input-InForce_example =
    policy_input-InForce (at_time 30) sample sample sample 2 git_rule (at_time-ReadsBack 30)

policy_input-home_example :
    zone_of (policy_input (at_time 30) sample sample sample) (7 ∷ [])
    ≡ opt_text (at_time 30) (home sample 7)
policy_input-home_example = policy_input-home (at_time 30) (at_time-ReadsBack 30) 7 sample sample-Wf

assign-home_example :
    ((assign (at_time 50) (codes "ann") (8 ∷ []) (2 ∷ []) sample).0 ≡ ok tt)
    × (home (assign (at_time 50) (codes "ann") (8 ∷ []) (2 ∷ []) sample).1 8 ≡ some 2)
    × (home (assign (at_time 50) (codes "ann") (8 ∷ []) (2 ∷ []) sample).1 7 ≡ home sample 7)
unfolding zone_exists
assign-home_example =
    assign-home (at_time 50) (codes "ann") (8 ∷ []) (2 ∷ []) 8 2 7 sample sample-Wf refl refl refl
      (λ e. absurd (omega (arith, e)))

set_default_zone-home_example :
    ((set_default_zone (at_time 50) (codes "ann") (2 ∷ []) sample).0 ≡ ok tt)
    × (defaults (set_default_zone (at_time 50) (codes "ann") (2 ∷ []) sample).1.zones ≡ 1)
    × ((v : Uuid)
        → home (set_default_zone (at_time 50) (codes "ann") (2 ∷ []) sample).1 v
          ≡ or_else (assigned_to v sample.assignments) (some 2))
unfolding zone_exists
set_default_zone-home_example =
    set_default_zone-home (at_time 50) (codes "ann") (2 ∷ []) 2 sample sample-Wf refl refl

abbrev approved : Result (Unit {0}) × Db
approved = decide (at_time 50) (codes "ann") (9 ∷ []) true (pos 60) sample

approved-ok : approved.0 ≡ ok tt
unfolding decide run_tx take_pending decide_row as_uuid is_pending grant insert_rule grant_row audit
    valid_rule valid_name codes host_kind int_eq str_eq int_lt rule_checks same_zone_rule opt_is
    is_some zone_ref_ok rule_detail grant_action ◌>>=◌
approved-ok = refl

decide-Decided_example :
    (u : Uuid) × (q : Request) × (parse (9 ∷ []) ≡ some u)
    × Decided (at_time 50) (codes "ann") true (pos 60) u q sample approved.1
decide-Decided_example =
    decide-Decided (at_time 50) (codes "ann") (9 ∷ []) true (pos 60) sample (at_time-ReadsBack 50)
      approved-ok

decide_again_example :
    decide (at_time 70) (codes "bob") (9 ∷ []) false (pos 0) approved.1 ≡ (err conflict, approved.1)
decide_again_example =
    decide_again (at_time 50) (at_time 70) (codes "ann") (codes "bob") (9 ∷ []) true false (pos 60)
      (pos 0) sample (at_time-ReadsBack 50) refl approved-ok

abbrev seen : Denial
seen = record {
  workspace_id = 7;
  host = codes "git.io";
  port = pos 443;
  count = 1;
  first_seen = 20;
  last_seen = 20;
}

cap_denials_bound_example :
    length (keep (λ d. d.workspace_id == 7) (cap_denials 7 (seen ∷ []))) ≤ max_denials
cap_denials_bound_example = cap_denials_bound 7 (seen ∷ [])

abbrev filed_once : Result Uuid × Db
filed_once =
    file_request (at_time 50) (codes "bob") (8 ∷ []) (codes "git.io") (pos 443) (codes "build")
      sample

filed_once-ok : filed_once.0 ≡ ok 100
unfolding file_request run_tx find_or_file file_new new_request same_request insert_request
    request_checks as_uuid is_pending audit valid_rule valid_name codes host_kind int_eq str_eq
    ◌>>=◌
filed_once-ok = refl

file_request_again_example :
    file_request
      (at_time 70)
      (codes "ann")
      (8 ∷ [])
      (codes "git.io")
      (pos 443)
      (codes "test")
      filed_once.1
    ≡ (ok 100, filed_once.1)
file_request_again_example =
    file_request_again (at_time 50) (at_time 70) (codes "bob") (codes "ann") (8 ∷ [])
      (codes "git.io") (pos 443) (codes "build") (codes "test") 100 sample refl filed_once-ok

read_literal-sql_literal_example :
    read_literal (sql_literal (codes "it's")) ≡ some (codes "it's", [])
read_literal-sql_literal_example = read_literal-sql_literal (codes "it's")
