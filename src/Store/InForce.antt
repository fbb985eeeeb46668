-- ===== src/Store/InForce.antt =====
-- The rules that a workspace has in the policy that `PolicyInput` loads, row by row.
use sandcastle.Prelude.{
  not, ◌&&◌, ◌≡◌, ◌⊎◌, ◌↔◌, inl, inr, refl, sym, ap, ◌∙◌, Bool, true, Option, none, some, List, [],
  ◌∷◌, Str, str_eq, map, In, In-keep, keep-In, keep, ==_iff, subst, ◌<◌, ltb, ltb→lt, lt→ltb,
}
use sandcastle.Prelude.Assoc.{Map, get}
use sandcastle.Prelude.Sort.{In-sort}
use sandcastle.Policy.Rules.{Rule, Input, rules_at, zone_of}
use sandcastle.Store.Db.{Time, Env, ReadsBack, Uuid, RuleRow, Db}
use sandcastle.Store.Sql.{opt_is, is_some}
use sandcastle.Store.Rules.{opt_text, in_force}
use sandcastle.Store.Load.{add_rule, add_rules, no_policy, rules_in_force, policy_input}
use sandcastle.Store.Loaded.{
  is_grant_of, rules_at-push, routed, add_rule-routed, rules-add_assignments, zone_rules-add_zones,
  policy_input-rules,
}
use sandcastle.Store.Invariant.{Wf}
use sandcastle.Store.Homes.{home, policy_input-home}

-- A row that has not expired, of the workspace's zone or of the workspace.
pub record HasRule (env : Env) (db : Db) (ws : Uuid) (r : Rule) : Type 0 where
  pub row : RuleRow
  pub stored : In row db.rules
  pub lasts : (t : Time) → row.expires_at ≡ some t → env.now < t
  pub states : row.rule ≡ r
  pub reaches :
      ((z : Uuid) × (home db ws ≡ some z) × (row.zone_id ≡ some z)) ⊎ (is_grant_of ws row ≡ true)

-- No rule is loaded for the empty text, where a workspace without a zone would look.
module _ (env : Env) (back : ReadsBack env) where
  nil-add_rule :
      (r : RuleRow) (p : Input)
      → rules_at [] (add_rule env r p).zone_rules ≡ rules_at [] p.zone_rules
  nil-add_rule r p =
      ap (λ (i : Input). rules_at [] i.zone_rules) (add_rule-routed env back r p)
      ∙ go (opt_text env r.zone_id)
    where
      go : (t : Str) → rules_at [] (routed env back t r p).zone_rules ≡ rules_at [] p.zone_rules
      go [] = refl
      go (c ∷ zone) = rules_at-push (c ∷ zone) [] r.rule p.zone_rules ∙ unfold str_eq in refl

  nil-add_rules :
      (rs : List RuleRow) (p : Input)
      → rules_at [] (add_rules env rs p).zone_rules ≡ rules_at [] p.zone_rules
  unfolding add_rules
  nil-add_rules [] p = refl
  nil-add_rules (r ∷ rs) p = nil-add_rules rs (add_rule env r p) ∙ nil-add_rule r p

  nil-policy_input : (db : Db) → rules_at [] (policy_input env db db db).zone_rules ≡ []
  unfolding policy_input rules_at get
  nil-policy_input db =
      ap (λ (m : Map (List Rule)). rules_at [] m)
        (rules-add_assignments env back db.assignments _).0
      ∙ (nil-add_rules (rules_in_force env db) _
          ∙ zone_rules-add_zones env back [] db.zones no_policy refl)

opt_is-eq : (z : Uuid) (o : Option Uuid) → (opt_is z o ≡ true) ↔ (o ≡ some z)
unfolding opt_is
opt_is-eq z none = (λ h. absurd (cc), λ h. absurd (cc))
opt_is-eq z (some y) =
    (λ h. ap some ((==_iff y z).0 h), λ h. let e : y ≡ z = cc in (==_iff y z).1 e)

-- The rules of the rows that pass a test.
In-rules :
    (p : RuleRow → Bool) (rows : List RuleRow) (r : Rule)
    → In r (map (λ row. row.rule) (keep p rows))
      ↔ ((row : RuleRow) × In row rows × (p row ≡ true) × (row.rule ≡ r))
In-rules p rows r = (
  λ m.
      let (row, n, e) = of_map (keep p rows) m in
      let (a, b) = In-keep p row rows n in (row, a, b, sym e),
  λ (row, n, t, e).
      subst (λ x. In x (map (λ y. y.rule) (keep p rows))) e
        (into_map (keep p rows) row (keep-In p row rows n t)),
)
  where
    of_map :
        (xs : List RuleRow)
        → In r (map (λ row. row.rule) xs)
        → (row : RuleRow) × In row xs × (r ≡ row.rule)
    of_map [] m = elim m [ ]
    of_map (x ∷ xs) (inl e) = (x, inl refl, e)
    of_map (x ∷ xs) (inr m) = let (row, n, e) = of_map xs m in (row, inr n, e)

    into_map : (xs : List RuleRow) (row : RuleRow) → In row xs → In row.rule (map (λ x. x.rule) xs)
    into_map [] row m = elim m [ ]
    into_map (x ∷ xs) row (inl e) = inl (ap (λ (y : RuleRow). y.rule) e)
    into_map (x ∷ xs) row (inr m) = inr (into_map xs row m)

-- The second query gives the rows that have not expired.
In-rules_in_force :
    (env : Env) (db : Db) (row : RuleRow)
    → In row (rules_in_force env db)
      ↔ (In row db.rules × ((t : Time) → row.expires_at ≡ some t → env.now < t))
unfolding rules_in_force in_force
In-rules_in_force env db row = (
  λ m.
      let (i, e) = In-keep (in_force env.now) row db.rules ((In-sort _ row _).0 m) in
      (i, λ t f. let k : ltb env.now t ≡ true = rw f at e in ltb→lt env.now t k),
  λ (i, l).
      (In-sort _ row _).1 (keep-In (in_force env.now) row db.rules i (lasting row.expires_at l)),
)
  where
    lasting :
        (o : Option Time)
        → ((t : Time) → o ≡ some t → env.now < t)
        → elim o [ none ↦ true | some t ↦ ltb env.now t ] ≡ true
    lasting none l = refl
    lasting (some t) l = lt→ltb env.now t (l t refl)

-- What a workspace's zone and grants hold in the loaded policy are the rows in force that reach it.
pub policy_input-HasRule :
    (env : Env) (db : Db) (ws : Uuid) (r : Rule)
    → ReadsBack env
    → Wf db
    → let p = policy_input env db db db in
      (In r (rules_at (zone_of p (env.show_uuid ws)) p.zone_rules)
        ⊎ In r (rules_at (env.show_uuid ws) p.grants))
      ↔ HasRule env db ws r
unfolding opt_text
policy_input-HasRule env db ws r back w =
    let p = policy_input env db db db in
    let at_home = policy_input-home env back ws db w in
    (
      λ m. elim m [
        | inl n ↦
            from_zone (home db ws) refl (subst (λ k. In r (rules_at k p.zone_rules)) at_home n)
        | inr n ↦
            let (row, a, b, e) =
              (In-rules (is_grant_of ws) _ r).0
                (subst (λ l. In r l) (policy_input-rules env back db db db ws).1 n) in
            let (i, l) = (In-rules_in_force env db row).0 a in
            record { row = row; stored = i; lasts = l; states = e; reaches = inr b }
      ],
      λ h. elim h.reaches [
        | inl (z, e, f) ↦ inl (
            subst (λ k. In r (rules_at k p.zone_rules)) (sym (at_home ∙ ap (opt_text env) e))
              (subst (λ l. In r l) (sym (policy_input-rules env back db db db z).0)
                ((In-rules (λ x. opt_is z x.zone_id) _ r).1 (
                  h.row,
                  (In-rules_in_force env db h.row).1 (h.stored, h.lasts),
                  (opt_is-eq z h.row.zone_id).1 f,
                  h.states,
                ))))
        | inr b ↦ inr (
            subst (λ l. In r l) (sym (policy_input-rules env back db db db ws).1)
              ((In-rules (is_grant_of ws) _ r).1
                (h.row, (In-rules_in_force env db h.row).1 (h.stored, h.lasts), b, h.states)))
      ],
    )
  where
    from_zone :
        (o : Option Uuid)
        → home db ws ≡ o
        → In r (rules_at (opt_text env o) (policy_input env db db db).zone_rules)
        → HasRule env db ws r
    from_zone none e n =
        absurd (let k : In r [] = subst (λ l. In r l) (nil-policy_input env back db) n in k)
    from_zone (some z) e n =
        let (row, a, b, q) =
          (In-rules (λ x. opt_is z x.zone_id) _ r).0
            (subst (λ l. In r l) (policy_input-rules env back db db db z).0 n) in
        let (i, l) = (In-rules_in_force env db row).0 a in
        record {
          row = row;
          stored = i;
          lasts = l;
          states = q;
          reaches = inl (z, e, (opt_is-eq z row.zone_id).0 b);
        }

-- A stored row that has not expired and stands where `Reach` says states the rule.
pub record InForce (env : Env) (db : Db) (Reach : RuleRow → Type 0) (r : Rule) : Type 0 where
  pub row : RuleRow
  pub stored : In row db.rules
  pub lasts : (t : Time) → row.expires_at ≡ some t → env.now < t
  pub states : row.rule ≡ r
  pub reaches : Reach row

is_grant_of-eq :
    (ws : Uuid) (row : RuleRow)
    → (is_grant_of ws row ≡ true) ↔ ((row.zone_id ≡ none) × (row.workspace_id ≡ some ws))
is_grant_of-eq ws row = go row.zone_id
  where
    go :
        (o : Option Uuid)
        → ((not (is_some o) && opt_is ws row.workspace_id) ≡ true)
          ↔ ((o ≡ none) × (row.workspace_id ≡ some ws))
    go none = (
      λ h. (refl, (opt_is-eq ws row.workspace_id).0 (unfold is_some in h)),
      λ (a, b). unfold is_some in (opt_is-eq ws row.workspace_id).1 b,
    )
    go (some z) = (λ h. absurd (unfold is_some in cc), λ (a, b). absurd (cc))

-- The rules that PolicyInput loads for a zone are exactly those of the zone's rows, and for a
-- workspace exactly those of its own grants, that are stored and have not expired at the time of the
-- query; a row without a zone is a grant. Ids read back as they are printed.
pub policy_input-InForce :
    (env : Env) (zones rules assignments : Db) (u : Uuid) (r : Rule)
    → ReadsBack env
    → let p = policy_input env zones rules assignments in
      (In r (rules_at (env.show_uuid u) p.zone_rules)
        ↔ InForce env rules (λ row. row.zone_id ≡ some u) r)
      × (In r (rules_at (env.show_uuid u) p.grants)
          ↔ InForce env rules (λ row. (row.zone_id ≡ none) × (row.workspace_id ≡ some u)) r)
policy_input-InForce env zones rules assignments u r back =
    let (z, g) = policy_input-rules env back zones rules assignments u in
    (
      states_of (λ row. opt_is u row.zone_id) (λ row. row.zone_id ≡ some u)
          (λ row. opt_is-eq u row.zone_id) _ z,
      states_of (is_grant_of u) (λ row. (row.zone_id ≡ none) × (row.workspace_id ≡ some u))
          (is_grant_of-eq u) _ g,
    )
  where
    states_of :
        (p : RuleRow → Bool) (Reach : RuleRow → Type 0)
        → ((row : RuleRow) → (p row ≡ true) ↔ Reach row)
        → (l : List Rule) → l ≡ map (λ row. row.rule) (keep p (rules_in_force env rules))
        → In r l ↔ InForce env rules Reach r
    states_of p Reach tells l e = (
      λ m.
          let (row, i, t, q) =
            (In-rules p (rules_in_force env rules) r).0 (subst (λ x. In r x) e m) in
          let (s, k) = (In-rules_in_force env rules row).0 i in
          record { row = row; stored = s; lasts = k; states = q; reaches = (tells row).0 t },
      λ h.
          subst (λ x. In r x) (sym e)
            ((In-rules p (rules_in_force env rules) r).1 (
              h.row,
              (In-rules_in_force env rules h.row).1 (h.stored, h.lasts),
              (tells h.row).1 h.reaches,
              h.states,
            )),
    )
