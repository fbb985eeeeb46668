-- ===== src/Cilium/Selected/Selectors.antt =====
-- The selector of a zone in `Render` picks exactly the workspaces of the zone.
use sandcastle.Prelude.{
  ◌≡◌, ◌≢◌, refl, sym, ap, subst, ◌∙◌, ◌↔◌, inl, inr, Bool, true, false, some, Option, List, [],
  ◌∷◌, In, All, Str, str_eq, str_eq→eq, eq→str_eq, str_lt, Bool-cases, Option-cases,
}
use sandcastle.Prelude.Assoc.{get, In-of-get, get-of-In}
use sandcastle.Prelude.Sort.{sort, In-sort}
use sandcastle.Policy.Rules.{Input, zone_of}
use sandcastle.Cilium.Render.{
  Match, match_on, in_op, members_at, members_of, zone_selector, zone_expr, default_expr,
}
use sandcastle.Cilium.Selected.{LabelLaws, IsInput}
use sandcastle.Cilium.Selected.Members.{
  collect_sound, collect_complete, elsewhere_sound, elsewhere_complete,
}

module _ (p : Input) (ok : IsInput p) where
  assigned_zone : (ws z : Str) → In (ws, z) p.assign → zone_of p ws ≡ z
  unfolding zone_of
  assigned_zone ws z h = rw (get-of-In ws z p.assign ok.assign h, zone_of) refl

  zone_assigned :
      (ws z : Str) → str_eq z p.default_zone ≡ false → zone_of p ws ≡ z → In (ws, z) p.assign
  unfolding zone_of
  zone_assigned ws z n e = elim (Option-cases (get ws p.assign)) [
    | inl f ↦
        let q : p.default_zone ≡ z = rw (f, zone_of) at e in
        absurd (let k = eq→str_eq z p.default_zone (sym q) in cc)
    | inr (y, f) ↦
        let q : y ≡ z = rw (f, zone_of) at e in
        In-of-get ws z p.assign (f ∙ ap (λ (x : Str). some x) q)
  ]

  In-members :
      (ws z : Str)
      → str_eq z p.default_zone ≡ false
      → In ws (members_at z (members_of p).members) ↔ (zone_of p ws ≡ z)
  unfolding members_of
  In-members ws z n = (
    λ h.
        elim (collect_sound p.default_zone ws z p.assign (record { members = []; elsewhere = [] })
          h) [ inl k ↦ absurd (unfold members_at get in k) | inr (k, m) ↦ assigned_zone ws z k ],
    λ e. collect_complete p.default_zone ws z p.assign _ (zone_assigned ws z n e) n,
  )

  In-elsewhere : (ws : Str) → In ws (members_of p).elsewhere ↔ (zone_of p ws ≢ p.default_zone)
  unfolding members_of
  In-elsewhere ws = (
    λ h e.
        elim (elsewhere_sound p.default_zone ws p.assign (record { members = []; elsewhere = [] })
          h) [
            | inl k ↦ k
            | inr (z, k, n) ↦
                let q : z ≡ p.default_zone = sym (assigned_zone ws z k) ∙ e in
                absurd (let k = eq→str_eq z p.default_zone q in cc)
          ],
    λ n. elim (Bool-cases (str_eq (zone_of p ws) p.default_zone)) [
      | inl e ↦ absurd (n (str_eq→eq (zone_of p ws) p.default_zone e))
      | inr e ↦
          elsewhere_complete p.default_zone ws (zone_of p ws) p.assign _
            (zone_assigned ws (zone_of p ws) e refl) e
    ],
  )

  module _ (fits : Match → Option Str → Bool) (laws : LabelLaws fits) where
    default_fits :
        (ids : List Str) (ws : Str)
        → All (λ m. fits m (some ws) ≡ true) (default_expr ids) ↔ (¬ In ws ids)
    unfolding default_expr
    default_fits [] ws = (λ h m. m, λ h. (laws.exists-some ws, tt))
    default_fits (i ∷ ids) ws = (
      λ h. (laws.not_in-some ws (i ∷ ids)).0 h.1.0,
      λ n. (laws.exists-some ws, ((laws.not_in-some ws (i ∷ ids)).1 n, tt)),
    )

    zone_expr_sound :
        (ids : List Str) (expr : List Match) (ws : Str)
        → zone_expr ids ≡ some expr
        → All (λ m. fits m (some ws) ≡ true) expr
        → In ws ids
    unfolding zone_expr
    zone_expr_sound [] expr ws e h = absurd (cc)
    zone_expr_sound (i ∷ ids) expr ws e h =
        let q : match_on in_op (some (sort str_lt (i ∷ ids))) ∷ [] ≡ expr = cc in
        (In-sort str_lt ws (i ∷ ids)).0 (
          (laws.in-some ws (sort str_lt (i ∷ ids))).0
            (subst (λ l. All (λ m. fits m (some ws) ≡ true) l) (sym q) h).0)

    zone_expr_complete :
        (ids : List Str) (ws : Str)
        → In ws ids
        → (expr : List Match) × (zone_expr ids ≡ some expr)
          × All (λ m. fits m (some ws) ≡ true) expr
    unfolding zone_expr
    zone_expr_complete [] ws h = elim h [ ]
    zone_expr_complete (i ∷ ids) ws h = (
      match_on in_op (some (sort str_lt (i ∷ ids))) ∷ [],
      refl,
      ((laws.in-some ws (sort str_lt (i ∷ ids))).1 ((In-sort str_lt ws (i ∷ ids)).1 h), tt),
    )

    -- The zone's selector picks exactly the zone's workspaces.
    pub selector_sound :
        (z ws : Str) (expr : List Match)
        → zone_selector p z ≡ some expr
        → All (λ m. fits m (some ws) ≡ true) expr
        → zone_of p ws ≡ z
    unfolding zone_selector
    selector_sound z ws expr e h = elim (Bool-cases (str_eq z p.default_zone)) [
      | inr n ↦
          (In-members ws z n).0
            (zone_expr_sound (members_at z (members_of p).members) expr ws (rw n at e) h)
      | inl d ↦
          let g : some (default_expr (sort str_lt (members_of p).elsewhere)) ≡ some expr =
            rw d at e in
          let q : default_expr (sort str_lt (members_of p).elsewhere) ≡ expr = cc in
          let n : ¬ In ws (sort str_lt (members_of p).elsewhere) =
            (default_fits (sort str_lt (members_of p).elsewhere) ws).0
              (subst (λ l. All (λ m. fits m (some ws) ≡ true) l) (sym q) h) in
          elim (Bool-cases (str_eq (zone_of p ws) p.default_zone)) [
            | inl f ↦ str_eq→eq (zone_of p ws) p.default_zone f ∙ sym (str_eq→eq z p.default_zone d)
            | inr f ↦ absurd (
                n (
                  (In-sort str_lt ws (members_of p).elsewhere).1 (
                    (In-elsewhere ws).1
                      (λ q. let k = eq→str_eq (zone_of p ws) p.default_zone q in absurd (cc)))))
          ]
    ]

    pub selector_complete :
        (z ws : Str)
        → zone_of p ws ≡ z
        → (expr : List Match) × (zone_selector p z ≡ some expr)
          × All (λ m. fits m (some ws) ≡ true) expr
    unfolding zone_selector
    selector_complete z ws e = elim (Bool-cases (str_eq z p.default_zone)) [
      | inr n ↦
          rw n
            (zone_expr_complete (members_at z (members_of p).members) ws ((In-members ws z n).1 e))
      | inl d ↦ rw d (
        default_expr (sort str_lt (members_of p).elsewhere),
        refl,
        (default_fits (sort str_lt (members_of p).elsewhere) ws).1 (λ m.
            (In-elsewhere ws).0 ((In-sort str_lt ws (members_of p).elsewhere).0 m)
              (e ∙ str_eq→eq z p.default_zone d)),
      )
    ]
