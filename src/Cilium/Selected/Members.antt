-- ===== src/Cilium/Selected/Members.antt =====
-- The members that `Render` collects, and the selector that it makes of them.
use sandcastle.Prelude.{
  ◌≡◌, refl, sym, ap, subst, ◌∙◌, ◌↔◌, ◌⊎◌, inl, inr, Bool, true, false, none, some, Option, List,
  [], ◌∷◌, ◌++◌, In, In-append, In-append_left, In-append_right, Str, str_eq, str_eq→eq,
  str_eq_refl, Bool-cases, if◌then◌else◌,
}
use sandcastle.Prelude.Assoc.{Map, get, put, get-put}
use sandcastle.Cilium.Render.{Members, members_at, add_assigned, collect_members}

members_at-put :
    (z y : Str) (ids : List Str) (m : Map (List Str))
    → members_at z (put y ids m) ≡ (if str_eq y z then ids else members_at z m)
unfolding members_at
members_at-put z y ids m =
    ap (λ (o : Option (List Str)). elim o [ none ↦ [] | some l ↦ l ]) (get-put y z ids m)
    ∙ split (str_eq y z)
  where
    split :
        (b : Bool)
        → elim (if b then some ids else get z m) [ none ↦ [] | some l ↦ l ]
          ≡ (if b then ids else members_at z m)
    split true = refl
    split false = refl

module _ (d : Str) where
  add_sound :
      (ws z w y : Str) (acc : Members)
      → In ws (members_at z (add_assigned d w y acc).members)
      → In ws (members_at z acc.members) ⊎ ((ws ≡ w) × (y ≡ z) × (str_eq z d ≡ false))
  unfolding add_assigned
  add_sound ws z w y acc h = elim (Bool-cases (str_eq y d)) [
    | inl e ↦ inl (rw e at h)
    | inr e ↦
        let k : In ws
            (if str_eq y z then members_at y acc.members ++ w ∷ [] else members_at z acc.members) =
          rw (e, members_at-put z y (members_at y acc.members ++ w ∷ []) acc.members) at h in
        elim (Bool-cases (str_eq y z)) [
          | inr f ↦ inl (rw f at k)
          | inl f ↦
              let q : y ≡ z = str_eq→eq y z f in
              elim (In-append ws (members_at y acc.members) (w ∷ []) (rw f at k)) [
                | inl j ↦ inl (subst (λ x. In ws (members_at x acc.members)) q j)
                | inr (inl r) ↦ inr (r, q, subst (λ x. str_eq x d ≡ false) q e)
                | inr (inr b) ↦ elim b [ ]
              ]
        ]
  ]

  add_grows :
      (ws z w y : Str) (acc : Members)
      → In ws (members_at z acc.members)
      → In ws (members_at z (add_assigned d w y acc).members)
  unfolding add_assigned
  add_grows ws z w y acc h = elim (Bool-cases (str_eq y d)) [
    | inl e ↦ rw e h
    | inr e ↦
        rw (e, members_at-put z y (members_at y acc.members ++ w ∷ []) acc.members)
          (elim (Bool-cases (str_eq y z)) [
            | inr f ↦ rw f h
            | inl f ↦ rw f (
                In-append_left ws (members_at y acc.members) (w ∷ [])
                  (subst (λ x. In ws (members_at x acc.members)) (sym (str_eq→eq y z f)) h))
          ])
  ]

  add_member :
      (w y : Str) (acc : Members)
      → str_eq y d ≡ false
      → In w (members_at y (add_assigned d w y acc).members)
  unfolding add_assigned
  add_member w y acc n =
      rw (n, members_at-put y y (members_at y acc.members ++ w ∷ []) acc.members, str_eq_refl y)
        (In-append_right w (members_at y acc.members) (w ∷ []) (inl refl))

  -- Members of zone `z` in the end: those at the start, and the assignments to it.
  pub collect_sound :
      (ws z : Str) (assign : Map Str) (acc : Members)
      → In ws (members_at z (collect_members d assign acc).members)
      → In ws (members_at z acc.members) ⊎ (In (ws, z) assign × (str_eq z d ≡ false))
  unfolding collect_members
  collect_sound ws z [] acc h = inl h
  collect_sound ws z ((w, y) ∷ assign) acc h =
      elim (collect_sound ws z assign (add_assigned d w y acc) h) [
        | inr (k, n) ↦ inr (inr k, n)
        | inl k ↦ elim (add_sound ws z w y acc k) [
          | inl j ↦ inl j
          | inr (r, q, n) ↦ inr (inl (cc), n)
        ]
      ]

  collect_grows :
      (ws z : Str) (assign : Map Str) (acc : Members)
      → In ws (members_at z acc.members)
      → In ws (members_at z (collect_members d assign acc).members)
  unfolding collect_members
  collect_grows ws z [] acc h = h
  collect_grows ws z ((w, y) ∷ assign) acc h =
      collect_grows ws z assign (add_assigned d w y acc) (add_grows ws z w y acc h)

  pub collect_complete :
      (ws z : Str) (assign : Map Str) (acc : Members)
      → In (ws, z) assign
      → str_eq z d ≡ false
      → In ws (members_at z (collect_members d assign acc).members)
  unfolding collect_members
  collect_complete ws z [] acc h n = elim h [ ]
  collect_complete ws z ((w, y) ∷ assign) acc (inl q) n =
      collect_grows ws z assign (add_assigned d w y acc) (
        subst (λ (e : Str × Str). In e.0 (members_at e.1 (add_assigned d w y acc).members)) (sym q)
          (add_member w y acc (subst (λ (e : Str × Str). str_eq e.1 d ≡ false) q n)))
  collect_complete ws z ((w, y) ∷ assign) acc (inr h) n =
      collect_complete ws z assign (add_assigned d w y acc) h n

  add_elsewhere :
      (ws w y : Str) (acc : Members)
      → In ws (add_assigned d w y acc).elsewhere
        ↔ (In ws acc.elsewhere ⊎ ((ws ≡ w) × (str_eq y d ≡ false)))
  unfolding add_assigned
  add_elsewhere ws w y acc = elim (Bool-cases (str_eq y d)) [
    | inl e ↦ rw e (λ h. inl h, λ h. elim h [ inl k ↦ k | inr (r, n) ↦ absurd (cc) ])
    | inr e ↦ rw e (
      λ h. elim (In-append ws acc.elsewhere (w ∷ []) h) [
        | inl k ↦ inl k
        | inr (inl r) ↦ inr (r, refl)
        | inr (inr b) ↦ elim b [ ]
      ],
      λ h. elim h [
        | inl k ↦ In-append_left ws acc.elsewhere (w ∷ []) k
        | inr (r, n) ↦ In-append_right ws acc.elsewhere (w ∷ []) (inl r)
      ],
    )
  ]

  pub elsewhere_sound :
      (ws : Str) (assign : Map Str) (acc : Members)
      → In ws (collect_members d assign acc).elsewhere
      → In ws acc.elsewhere ⊎ ((z : Str) × In (ws, z) assign × (str_eq z d ≡ false))
  unfolding collect_members
  elsewhere_sound ws [] acc h = inl h
  elsewhere_sound ws ((w, y) ∷ assign) acc h =
      elim (elsewhere_sound ws assign (add_assigned d w y acc) h) [
        | inr (z, k, n) ↦ inr (z, inr k, n)
        | inl k ↦ elim ((add_elsewhere ws w y acc).0 k) [
          | inl j ↦ inl j
          | inr (r, n) ↦ inr (y, inl (cc), n)
        ]
      ]

  elsewhere_grows :
      (ws : Str) (assign : Map Str) (acc : Members)
      → In ws acc.elsewhere
      → In ws (collect_members d assign acc).elsewhere
  unfolding collect_members
  elsewhere_grows ws [] acc h = h
  elsewhere_grows ws ((w, y) ∷ assign) acc h =
      elsewhere_grows ws assign (add_assigned d w y acc) ((add_elsewhere ws w y acc).1 (inl h))

  pub elsewhere_complete :
      (ws z : Str) (assign : Map Str) (acc : Members)
      → In (ws, z) assign
      → str_eq z d ≡ false
      → In ws (collect_members d assign acc).elsewhere
  unfolding collect_members
  elsewhere_complete ws z [] acc h n = elim h [ ]
  elsewhere_complete ws z ((w, y) ∷ assign) acc (inl q) n =
      elsewhere_grows ws assign (add_assigned d w y acc) (
        (add_elsewhere ws w y acc).1 (
          inr (ap (λ (e : Str × Str). e.0) q, subst (λ (e : Str × Str). str_eq e.1 d ≡ false) q n)))
  elsewhere_complete ws z ((w, y) ∷ assign) acc (inr h) n =
      elsewhere_complete ws z assign (add_assigned d w y acc) h n
