-- ===== src/Store/Keyed.antt =====
-- The policy that `PolicyInput` of admin/internal/store/store.go loads holds each key of its maps
-- once.
use sandcastle.Prelude.{◌≢◌, inl, inr, [], ◌∷◌, List, Str, All, str_eq, eq→str_eq, Bool-cases}
use sandcastle.Prelude.Assoc.{Map, put}
use sandcastle.Prelude.Distinct.{Unique}
use sandcastle.Policy.Rules.{Input}
use sandcastle.Cilium.Selected.{IsInput}
use sandcastle.Store.Db.{Env, Zone, RuleRow, Assignment, Db}
use sandcastle.Store.Rules.{opt_text}
use sandcastle.Store.Load.{
  add_zones, push_rule, add_rule, add_rules, add_assignments, no_policy, rules_in_force,
  policy_input,
}

module _ {V : Type 0} (k : Str) (v : V) where
  apart-put :
      (j : Str) (m : Map V)
      → j ≢ k
      → All (λ (e : Str × V). j ≢ e.0) m
      → All (λ (e : Str × V). j ≢ e.0) (put k v m)
  unfolding put
  apart-put j [] n h = (n, tt)
  apart-put j ((i, w) ∷ m) n h = elim (Bool-cases (str_eq i k)) [
    | inl e ↦ rw e (h.0, h.1)
    | inr e ↦ rw e (h.0, apart-put j m n h.1)
  ]

  put-Unique :
      (m : Map V) → Unique (λ (e : Str × V). e.0) m → Unique (λ (e : Str × V). e.0) (put k v m)
  unfolding put
  put-Unique [] u = (tt, tt)
  put-Unique ((i, w) ∷ m) u = elim (Bool-cases (str_eq i k)) [
    | inl e ↦ rw e (u.0, u.1)
    | inr e ↦
        rw e (apart-put i m (λ q. let f = eq→str_eq i k q in absurd (cc)) u.0, put-Unique m u.1)
  ]

module _ (env : Env) where
  add_zones-IsInput : (zs : List Zone) (p : Input) → IsInput p → IsInput (add_zones env zs p)
  unfolding add_zones
  add_zones-IsInput [] p h = h
  add_zones-IsInput (z ∷ zs) p h = add_zones-IsInput zs _ (record {
    assign = h.assign;
    zone_rules = put-Unique (env.show_uuid z.id) [] p.zone_rules h.zone_rules;
    grants = h.grants;
  })

  add_rule-IsInput : (r : RuleRow) (p : Input) → IsInput p → IsInput (add_rule env r p)
  unfolding add_rule push_rule
  add_rule-IsInput r p h =
      elim (opt_text env r.zone_id)
        as (λ t. IsInput (elim t [
          | [] ↦ record p { grants = push_rule (opt_text env r.workspace_id) r.rule p.grants }
          | c ∷ zone ↦ record p { zone_rules = push_rule (c ∷ zone) r.rule p.zone_rules }
        ])) [
          | [] ↦ record {
            assign = h.assign;
            zone_rules = h.zone_rules;
            grants = put-Unique (opt_text env r.workspace_id) _ p.grants h.grants;
          }
          | c ∷ zone ↦ record {
            assign = h.assign;
            zone_rules = put-Unique (c ∷ zone) _ p.zone_rules h.zone_rules;
            grants = h.grants;
          }
        ]

  add_rules-IsInput : (rs : List RuleRow) (p : Input) → IsInput p → IsInput (add_rules env rs p)
  unfolding add_rules
  add_rules-IsInput [] p h = h
  add_rules-IsInput (r ∷ rs) p h = add_rules-IsInput rs (add_rule env r p) (add_rule-IsInput r p h)

  add_assignments-IsInput :
      (rows : List Assignment) (p : Input) → IsInput p → IsInput (add_assignments env rows p)
  unfolding add_assignments
  add_assignments-IsInput [] p h = h
  add_assignments-IsInput (a ∷ rows) p h = add_assignments-IsInput rows _ (record {
    assign = put-Unique (env.show_uuid a.workspace_id) (env.show_uuid a.zone_id) p.assign h.assign;
    zone_rules = h.zone_rules;
    grants = h.grants;
  })

  pub policy_input-IsInput :
      (zones rules assignments : Db) → IsInput (policy_input env zones rules assignments)
  unfolding policy_input
  policy_input-IsInput zones rules assignments = add_assignments-IsInput assignments.assignments _ (
      add_rules-IsInput (rules_in_force env rules) _ (
        add_zones-IsInput zones.zones no_policy
          (record { assign = tt; zone_rules = tt; grants = tt })))
