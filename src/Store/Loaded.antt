-- ===== src/Store/Loaded.antt =====
-- What `PolicyInput` of admin/internal/store/store.go loads.
use mathlib.Core.List.{append-nil, append_assoc}
use sandcastle.Prelude.{
  ◌≡◌, refl, sym, ap, ◌∙◌, inl, inr, Bool, true, false, not, ◌&&◌, Option, none, some, List, [],
  ◌∷◌, ◌++◌, Str, str_eq, str_eq→eq, str_eq_refl, ◌==◌, ==_iff, keep, map, Bool-cases,
  if◌then◌else◌,
}
use sandcastle.Prelude.Assoc.{Map, get, put, get-put}
use sandcastle.Policy.Rules.{Rule, Input, rules_at}
use sandcastle.Store.Db.{Env, Uuid, ReadsBack, Zone, RuleRow, Assignment, Db}
use sandcastle.Store.Sql.{opt_is, is_some}
use sandcastle.Store.Rules.{opt_text}
use sandcastle.Store.Load.{
  add_zones, push_rule, add_rule, add_rules, add_assignments, no_policy, rules_in_force,
  policy_input,
}

pub rules_at-push :
    (k j : Str) (r : Rule) (m : Map (List Rule))
    → rules_at j (push_rule k r m) ≡ (if str_eq k j then rules_at k m ++ r ∷ [] else rules_at j m)
unfolding rules_at push_rule
rules_at-push k j r m =
    ap (λ (o : Option (List Rule)). elim o [ none ↦ [] | some l ↦ l ]) (get-put k j _ m)
    ∙ split (str_eq k j)
  where
    split :
        (b : Bool)
        → elim (if b then some (rules_at k m ++ r ∷ []) else get j m) [ none ↦ [] | some l ↦ l ]
          ≡ (if b then rules_at k m ++ r ∷ [] else rules_at j m)
    split true = refl
    split false = refl

-- A workspace rule of the workspace.
abbrev pub is_grant_of : Uuid → RuleRow → Bool
is_grant_of ws r = not (is_some r.zone_id) && opt_is ws r.workspace_id

module _ (env : Env) (back : ReadsBack env) where
  pub show-eq : (y z : Uuid) → str_eq (env.show_uuid y) (env.show_uuid z) ≡ (y == z)
  show-eq y z = elim (Bool-cases (y == z)) [
    | inl e ↦ rw ((==_iff y z).0 e) (str_eq_refl (env.show_uuid z) ∙ sym ((==_iff z z).1 refl))
    | inr e ↦ elim (Bool-cases (str_eq (env.show_uuid y) (env.show_uuid z))) [
      | inr f ↦ f ∙ sym e
      | inl f ↦ absurd (
          let q : some y ≡ some z =
            sym (back.parse-show y)
            ∙ ap env.parse_uuid (str_eq→eq (env.show_uuid y) (env.show_uuid z) f)
            ∙ back.parse-show z in
          let r : y ≡ z = cc in let k = (==_iff y z).1 r in cc)
    ]
  ]

  show-text : (y : Uuid) → str_eq (env.show_uuid y) [] ≡ false
  show-text y = elim (Bool-cases (str_eq (env.show_uuid y) [])) [
    | inr e ↦ e
    | inl e ↦ absurd (back.show-ne_nil y (str_eq→eq (env.show_uuid y) [] e))
  ]

  opt_text-eq :
      (o : Option Uuid) (z : Uuid) → str_eq (opt_text env o) (env.show_uuid z) ≡ opt_is z o
  unfolding opt_text opt_is
  opt_text-eq none z = elim (Bool-cases (str_eq [] (env.show_uuid z))) [
    | inr e ↦ e
    | inl e ↦ absurd (back.show-ne_nil z (sym (str_eq→eq [] (env.show_uuid z) e)))
  ]
  opt_text-eq (some y) z = show-eq y z

  -- `add_rule` with the text of the row's zone.
  abbrev pub routed : Str → RuleRow → Input → Input
  routed [] r p = record p { grants = push_rule (opt_text env r.workspace_id) r.rule p.grants }
  routed (c ∷ zone) r p = record p { zone_rules = push_rule (c ∷ zone) r.rule p.zone_rules }

  pub add_rule-routed :
      (r : RuleRow) (p : Input) → add_rule env r p ≡ routed (opt_text env r.zone_id) r p
  unfolding add_rule
  add_rule-routed r p = go (opt_text env r.zone_id)
    where
      go :
          (t : Str)
          → elim t as (λ _. Input) [
            | [] ↦ record p { grants = push_rule (opt_text env r.workspace_id) r.rule p.grants }
            | c ∷ zone ↦ record p { zone_rules = push_rule (c ∷ zone) r.rule p.zone_rules }
          ]
            ≡ routed t r p
      go [] = refl
      go (c ∷ zone) = refl

  -- Where one row goes.
  zone_rules-add_rule :
      (z : Uuid) (r : RuleRow) (p : Input)
      → rules_at (env.show_uuid z) (add_rule env r p).zone_rules
        ≡ rules_at (env.show_uuid z) p.zone_rules
          ++ (if opt_is z r.zone_id then r.rule ∷ [] else [])
  zone_rules-add_rule z r p =
      ap (λ (i : Input). rules_at (env.show_uuid z) i.zone_rules) (add_rule-routed r p)
      ∙ go (opt_text env r.zone_id) (opt_text-eq r.zone_id z)
    where
      go :
          (t : Str)
          → str_eq t (env.show_uuid z) ≡ opt_is z r.zone_id
          → rules_at (env.show_uuid z) (routed t r p).zone_rules
            ≡ rules_at (env.show_uuid z) p.zone_rules
              ++ (if opt_is z r.zone_id then r.rule ∷ [] else [])
      go [] e = elim (Bool-cases (opt_is z r.zone_id)) [
        | inr f ↦ rw f (sym (append-nil (rules_at (env.show_uuid z) p.zone_rules)))
        | inl f ↦ absurd (back.show-ne_nil z (sym (str_eq→eq [] (env.show_uuid z) (e ∙ f))))
      ]
      go (c ∷ zone) e =
          rules_at-push (c ∷ zone) (env.show_uuid z) r.rule p.zone_rules
          ∙ (elim (Bool-cases (opt_is z r.zone_id)) [
            | inl f ↦
                rw (e ∙ f, f)
                  (ap (λ (k : Str). rules_at k p.zone_rules ++ r.rule ∷ [])
                    (str_eq→eq (c ∷ zone) (env.show_uuid z) (e ∙ f)))
            | inr f ↦ rw (e ∙ f, f) (sym (append-nil (rules_at (env.show_uuid z) p.zone_rules)))
          ])

  grants-add_rule :
      (ws : Uuid) (r : RuleRow) (p : Input)
      → rules_at (env.show_uuid ws) (add_rule env r p).grants
        ≡ rules_at (env.show_uuid ws) p.grants
          ++ (if not (is_some r.zone_id) && opt_is ws r.workspace_id then r.rule ∷ [] else [])
  unfolding is_some
  grants-add_rule ws r p =
      ap (λ (i : Input). rules_at (env.show_uuid ws) i.grants) (add_rule-routed r p) ∙ go r.zone_id
    where
      owned : (t : Str) → str_eq t [] ≡ false → (routed t r p).grants ≡ p.grants
      owned [] e = absurd (unfold str_eq in cc)
      owned (c ∷ t) e = refl

      go :
          (o : Option Uuid)
          → rules_at (env.show_uuid ws) (routed (opt_text env o) r p).grants
            ≡ rules_at (env.show_uuid ws) p.grants
              ++ (if not (is_some o) && opt_is ws r.workspace_id then r.rule ∷ [] else [])
      go none =
          unfold opt_text in
          rules_at-push (opt_text env r.workspace_id) (env.show_uuid ws) r.rule p.grants
          ∙ (let e = opt_text-eq r.workspace_id ws in
              elim (Bool-cases (opt_is ws r.workspace_id)) [
                | inl f ↦
                    rw (e ∙ f, f)
                      (ap (λ (k : Str). rules_at k p.grants ++ r.rule ∷ [])
                        (str_eq→eq (opt_text env r.workspace_id) (env.show_uuid ws) (e ∙ f)))
                | inr f ↦ rw (e ∙ f, f) (sym (append-nil (rules_at (env.show_uuid ws) p.grants)))
              ])
      go (some y) =
          ap (λ (m : Map (List Rule)). rules_at (env.show_uuid ws) m)
            (owned (opt_text env (some y)) (unfold opt_text in show-text y))
          ∙ sym (append-nil (rules_at (env.show_uuid ws) p.grants))

  zone_rules-add_rules :
      (z : Uuid) (rs : List RuleRow) (p : Input)
      → rules_at (env.show_uuid z) (add_rules env rs p).zone_rules
        ≡ rules_at (env.show_uuid z) p.zone_rules
          ++ map (λ r. r.rule) (keep (λ r. opt_is z r.zone_id) rs)
  unfolding add_rules
  zone_rules-add_rules z [] p = sym (append-nil (rules_at (env.show_uuid z) p.zone_rules))
  zone_rules-add_rules z (r ∷ rs) p =
      zone_rules-add_rules z rs (add_rule env r p)
      ∙ ap (λ (l : List Rule). l ++ map (λ r. r.rule) (keep (λ r. opt_is z r.zone_id) rs))
          (zone_rules-add_rule z r p)
      ∙ (elim (Bool-cases (opt_is z r.zone_id)) [
        | inl e ↦ rw e (append_assoc (rules_at (env.show_uuid z) p.zone_rules) (r.rule ∷ []) _)
        | inr e ↦ rw e (
            ap (λ (l : List Rule). l ++ map (λ r. r.rule) (keep (λ r. opt_is z r.zone_id) rs))
              (append-nil (rules_at (env.show_uuid z) p.zone_rules)))
      ])

  grants-add_rules :
      (ws : Uuid) (rs : List RuleRow) (p : Input)
      → rules_at (env.show_uuid ws) (add_rules env rs p).grants
        ≡ rules_at (env.show_uuid ws) p.grants ++ map (λ r. r.rule) (keep (is_grant_of ws) rs)
  unfolding add_rules
  grants-add_rules ws [] p = sym (append-nil (rules_at (env.show_uuid ws) p.grants))
  grants-add_rules ws (r ∷ rs) p =
      grants-add_rules ws rs (add_rule env r p)
      ∙ ap (λ (l : List Rule). l ++ map (λ r. r.rule) (keep (is_grant_of ws) rs))
          (grants-add_rule ws r p)
      ∙ (elim (Bool-cases (is_grant_of ws r)) [
        | inl e ↦ rw e (append_assoc (rules_at (env.show_uuid ws) p.grants) (r.rule ∷ []) _)
        | inr e ↦ rw e (
            ap (λ (l : List Rule). l ++ map (λ r. r.rule) (keep (is_grant_of ws) rs))
              (append-nil (rules_at (env.show_uuid ws) p.grants)))
      ])

  rules_at-put_nil :
      (k j : Str) (m : Map (List Rule)) → rules_at j m ≡ [] → rules_at j (put k [] m) ≡ []
  unfolding rules_at
  rules_at-put_nil k j m e = elim (Bool-cases (str_eq k j)) [
    | inl f ↦ rw (rules_at, get-put k j [] m, f) refl
    | inr f ↦ rw (rules_at, get-put k j [] m, f) e
  ]

  pub zone_rules-add_zones :
      (k : Str) (zs : List Zone) (p : Input)
      → rules_at k p.zone_rules ≡ []
      → rules_at k (add_zones env zs p).zone_rules ≡ []
  unfolding add_zones
  zone_rules-add_zones k [] p e = e
  zone_rules-add_zones k (z ∷ zs) p e =
      zone_rules-add_zones k zs _ (rules_at-put_nil (env.show_uuid z.id) k p.zone_rules e)

  grants-add_zones : (zs : List Zone) (p : Input) → (add_zones env zs p).grants ≡ p.grants
  unfolding add_zones
  grants-add_zones [] p = refl
  grants-add_zones (z ∷ zs) p = grants-add_zones zs _

  pub rules-add_assignments :
      (as' : List Assignment) (p : Input)
      → ((add_assignments env as' p).zone_rules ≡ p.zone_rules)
        × ((add_assignments env as' p).grants ≡ p.grants)
  unfolding add_assignments
  rules-add_assignments [] p = (refl, refl)
  rules-add_assignments (a ∷ as') p = rules-add_assignments as' _

  -- PolicyInput loads for each zone exactly the zone's rules that are in force, and for each
  -- workspace exactly its own unexpired grants, both in the order of kind, value and port; a rule
  -- never reaches another zone or workspace.
  pub policy_input-rules :
      (zones rules assignments : Db) (u : Uuid)
      → (rules_at (env.show_uuid u) (policy_input env zones rules assignments).zone_rules
          ≡ map (λ r. r.rule) (keep (λ r. opt_is u r.zone_id) (rules_in_force env rules)))
        × (rules_at (env.show_uuid u) (policy_input env zones rules assignments).grants
            ≡ map (λ r. r.rule) (keep (is_grant_of u) (rules_in_force env rules)))
  unfolding policy_input
  policy_input-rules zones rules assignments u = (
    ap (λ (m : Map (List Rule)). rules_at (env.show_uuid u) m)
          (rules-add_assignments assignments.assignments _).0
        ∙ zone_rules-add_rules u (rules_in_force env rules) _
        ∙ ap
            (λ (l : List Rule).
              l ++ map (λ r. r.rule) (keep (λ r. opt_is u r.zone_id) (rules_in_force env rules)))
            (zone_rules-add_zones (env.show_uuid u) zones.zones no_policy
              (unfold rules_at get in refl)),
    ap (λ (m : Map (List Rule)). rules_at (env.show_uuid u) m)
          (rules-add_assignments assignments.assignments _).1
        ∙ grants-add_rules u (rules_in_force env rules) _
        ∙ ap
            (λ (m : Map (List Rule)).
              rules_at (env.show_uuid u) m
              ++ map (λ r. r.rule) (keep (is_grant_of u) (rules_in_force env rules)))
            (grants-add_zones zones.zones no_policy)
        ∙ unfold rules_at get in refl,
  )
