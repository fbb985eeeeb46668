-- ===== src/Store/Homes.antt =====
-- The zone that a workspace is in: what `Assign` of admin/internal/store/zones.go sets and
-- `PolicyInput` of admin/internal/store/store.go loads.
pub mod Moves
use sandcastle.Prelude.{
  ℕ, ◌+◌, ◌≤◌, ◌≡◌, ◌≢◌, refl, sym, ap, ◌∙◌, inl, inr, Bool, true, false, not, Option, none, some,
  List, [], ◌∷◌, Str, str_eq, ◌==◌, ==_iff, keep, map, find, arith, Bool-cases, Option-cases,
  if◌then◌else◌, All, In, subst,
}
use sandcastle.Prelude.Assoc.{Map, get, put, get-put}
use sandcastle.Prelude.Distinct.{Unique}
use sandcastle.Policy.Rules.{Input, zone_of}
use sandcastle.Store.Db.{Env, Uuid, ReadsBack, Zone, RuleRow, Assignment, Db}
use sandcastle.Store.Rules.{opt_text}
use sandcastle.Store.Load.{
  add_zones, add_rule, add_rules, add_assignments, no_policy, rules_in_force, policy_input,
  push_rule,
}
use sandcastle.Store.Invariant.{Wf, defaults}
use sandcastle.Store.Loaded.{show-eq}

abbrev pub default_id : List Zone → Option Uuid
default_id [] = none
default_id (z ∷ zs) = if z.is_default then some z.id else default_id zs

abbrev pub assigned_to : Uuid → List Assignment → Option Uuid
assigned_to ws [] = none
assigned_to ws (a ∷ rows) = if a.workspace_id == ws then some a.zone_id else assigned_to ws rows

abbrev pub or_else : Option Uuid → Option Uuid → Option Uuid
or_else none o = o
or_else (some u) o = some u

-- A workspace's zone: the one that it is assigned to, or else the default.
abbrev pub home : Db → Uuid → Option Uuid
home db ws = or_else (assigned_to ws db.assignments) (default_id db.zones)

pub assigned_to-absent :
    (ws : Uuid) (rows : List Assignment)
    → All (λ b. ws ≢ b.workspace_id) rows
    → assigned_to ws rows ≡ none
assigned_to-absent ws [] h = refl
assigned_to-absent ws (b ∷ rows) h =
    ground (arith, h.0, ==_iff b.workspace_id ws, assigned_to-absent ws rows h.1)

module _ (env : Env) where
  assign-add_rules :
      (rs : List RuleRow) (p : Input)
      → ((add_rules env rs p).assign ≡ p.assign)
        × ((add_rules env rs p).default_zone ≡ p.default_zone)
  unfolding add_rules
  assign-add_rules [] p = (refl, refl)
  assign-add_rules (r ∷ rs) p =
      let (a, d) = assign-add_rules rs (add_rule env r p) in (a ∙ (one r).0, d ∙ (one r).1)
    where
      one :
          (r : RuleRow)
          → ((add_rule env r p).assign ≡ p.assign)
            × ((add_rule env r p).default_zone ≡ p.default_zone)
      one r = unfold add_rule in go (opt_text env r.zone_id)
        where
          go :
              (t : Str)
              → ((elim t as (λ _. Input) [
                | [] ↦ record p { grants = push_rule (opt_text env r.workspace_id) r.rule p.grants }
                | c ∷ zone ↦ record p { zone_rules = push_rule (c ∷ zone) r.rule p.zone_rules }
              ]).assign
                  ≡ p.assign)
                × ((elim t as (λ _. Input) [
                  | [] ↦ record p {
                    grants = push_rule (opt_text env r.workspace_id) r.rule p.grants;
                  }
                  | c ∷ zone ↦ record p { zone_rules = push_rule (c ∷ zone) r.rule p.zone_rules }
                ]).default_zone
                    ≡ p.default_zone)
          go [] = (refl, refl)
          go (c ∷ zone) = (refl, refl)

  default-add_assignments :
      (rows : List Assignment) (p : Input)
      → (add_assignments env rows p).default_zone ≡ p.default_zone
  unfolding add_assignments
  default-add_assignments [] p = refl
  default-add_assignments (a ∷ rows) p = default-add_assignments rows _

  assign-add_zones : (zs : List Zone) (p : Input) → (add_zones env zs p).assign ≡ p.assign
  unfolding add_zones
  assign-add_zones [] p = refl
  assign-add_zones (z ∷ zs) p = assign-add_zones zs _

  default-add_zones_none :
      (zs : List Zone) (p : Input)
      → defaults zs ≡ 0
      → (add_zones env zs p).default_zone ≡ p.default_zone
  unfolding add_zones
  default-add_zones_none [] p h = refl
  default-add_zones_none (z ∷ zs) p h = elim (Bool-cases z.is_default) [
    | inl e ↦ absurd (ground arith)
    | inr e ↦
        default-add_zones_none zs _ (ground arith)
        ∙ ap (λ (b : Bool). if b then env.show_uuid z.id else p.default_zone) e
  ]

  default-add_zones :
      (zs : List Zone) (p : Input)
      → defaults zs ≤ 1
      → p.default_zone ≡ []
      → (add_zones env zs p).default_zone ≡ opt_text env (default_id zs)
  unfolding add_zones opt_text
  default-add_zones [] p h e = e
  default-add_zones (z ∷ zs) p h e = elim (Bool-cases z.is_default) [
    | inl f ↦
        default-add_zones_none zs _ (ground arith)
        ∙ ap (λ (b : Bool). if b then env.show_uuid z.id else p.default_zone) f
        ∙ ap (λ (b : Bool). opt_text env (if b then some z.id else default_id zs)) (sym f)
    | inr f ↦
        default-add_zones zs _ (ground arith)
          (ap (λ (b : Bool). if b then env.show_uuid z.id else p.default_zone) f ∙ e)
        ∙ ap (λ (b : Bool). opt_text env (if b then some z.id else default_id zs)) (sym f)
  ]

  module _ (back : ReadsBack env) (ws : Uuid) where
    show-ne : (u : Uuid) → ws ≢ u → str_eq (env.show_uuid u) (env.show_uuid ws) ≡ false
    show-ne u n = elim (Bool-cases (u == ws)) [
      | inr e ↦ show-eq env back u ws ∙ e
      | inl e ↦ absurd (n (sym ((==_iff u ws).0 e)))
    ]

    get-add_assignments_none :
        (rows : List Assignment) (p : Input)
        → All (λ b. ws ≢ b.workspace_id) rows
        → get (env.show_uuid ws) (add_assignments env rows p).assign
          ≡ get (env.show_uuid ws) p.assign
    unfolding add_assignments
    get-add_assignments_none [] p h = refl
    get-add_assignments_none (b ∷ rows) p h =
        get-add_assignments_none rows _ h.1
        ∙ get-put (env.show_uuid b.workspace_id) (env.show_uuid ws) (env.show_uuid b.zone_id)
            p.assign
        ∙ ap
            (λ (t : Bool).
              if t then some (env.show_uuid b.zone_id) else get (env.show_uuid ws) p.assign)
            (show-ne b.workspace_id h.0)

    get-add_assignments :
        (rows : List Assignment) (p : Input)
        → Unique (λ a. a.workspace_id) rows
        → get (env.show_uuid ws) (add_assignments env rows p).assign ≡ elim (assigned_to ws rows) [
          | none ↦ get (env.show_uuid ws) p.assign
          | some z ↦ some (env.show_uuid z)
        ]
    unfolding add_assignments
    get-add_assignments [] p u = refl
    get-add_assignments (b ∷ rows) p u =
        let put_eq =
          get-put (env.show_uuid b.workspace_id) (env.show_uuid ws) (env.show_uuid b.zone_id)
            p.assign
          ∙ ap
              (λ (t : Bool).
                if t then some (env.show_uuid b.zone_id) else get (env.show_uuid ws) p.assign)
              (show-eq env back b.workspace_id ws) in
        elim (Bool-cases (b.workspace_id == ws)) [
          | inl e ↦ rw e (
              get-add_assignments_none rows _ (others ((==_iff b.workspace_id ws).0 e))
              ∙ rw e at put_eq)
          | inr e ↦ rw e (
              get-add_assignments rows _ u.1
              ∙ ap
                  (λ (o : Option Str). elim (assigned_to ws rows) [
                    | none ↦ o
                    | some z ↦ some (env.show_uuid z)
                  ])
                  (rw e at put_eq))
        ]
      where
        others : b.workspace_id ≡ ws → All (λ c. ws ≢ c.workspace_id) rows
        others e = subst (λ w. All (λ c. w ≢ c.workspace_id) rows) e u.0

    text_of :
        (o : Option Uuid) (d : Str) (e : Option Uuid)
        → d ≡ opt_text env e
        → elim (elim o as (λ _. Option Str) [ none ↦ none | some z ↦ some (env.show_uuid z) ])
            as (λ _. Str) [ none ↦ d | some t ↦ t ]
          ≡ opt_text env (or_else o e)
    unfolding opt_text
    text_of none d e h = h
    text_of (some z) d e h = refl

    -- The loaded policy puts each workspace into the zone that it is assigned to, or else into the
    -- default zone, or into no zone where there is none.
    pub policy_input-home :
        (db : Db)
        → Wf db
        → zone_of (policy_input env db db db) (env.show_uuid ws) ≡ opt_text env (home db ws)
    unfolding policy_input zone_of
    policy_input-home db w =
        ap (λ (o : Option Str). elim o as (λ _. Str) [ none ↦ loaded.default_zone | some t ↦ t ])
          (get-add_assignments db.assignments before w.assigned_once
            ∙ ap
                (λ (m : Map Str). elim (assigned_to ws db.assignments) as (λ _. Option Str) [
                  | none ↦ get (env.show_uuid ws) m
                  | some z ↦ some (env.show_uuid z)
                ])
                ((assign-add_rules (rules_in_force env db) zones).0
                  ∙ assign-add_zones db.zones no_policy))
        ∙ (unfold get in
            text_of (assigned_to ws db.assignments) _ (default_id db.zones) (
              default-add_assignments db.assignments before
              ∙ (assign-add_rules (rules_in_force env db) zones).1
              ∙ default-add_zones db.zones no_policy w.one_default refl))
      where
        zones : Input
        zones = add_zones env db.zones no_policy

        before : Input
        before = add_rules env (rules_in_force env db) zones

        loaded : Input
        loaded = add_assignments env db.assignments before
