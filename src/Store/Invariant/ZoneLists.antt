-- ===== src/Store/Invariant/ZoneLists.antt =====
-- The list of zones after each write: ids, existence, defaults.
use sandcastle.Prelude.{
  ℕ, ◌+◌, ◌≤◌, ◌≡◌, ◌≢◌, refl, ap, subst, inl, inr, true, false, not, Option, none, some, List, [],
  ◌∷◌, ◌++◌, All, any, keep, arith, ◌==◌, ==_iff, Str, Bool-cases, if◌then◌else◌,
}
use sandcastle.Prelude.Distinct.{Unique}
use sandcastle.Store.Db.{Uuid, Zone}
use sandcastle.Store.Sql.{zone_exists, zone_ref_ok}
use sandcastle.Store.Zones.{set_name, clear_default, mark_default}
use sandcastle.Store.Invariant.{defaults, is_plain}

module _ (z : Zone) where
  pub exists-snoc :
      (u : Uuid) (zs : List Zone) → zone_exists u zs ≡ true → zone_exists u (zs ++ z ∷ []) ≡ true
  unfolding zone_exists
  exists-snoc u [] h = cc
  exists-snoc u (y ∷ zs) h = ground (arith, exists-snoc u zs)

  pub plain-snoc :
      (u : Uuid) (zs : List Zone) → is_plain u zs ≡ true → is_plain u (zs ++ z ∷ []) ≡ true
  plain-snoc u [] h = cc
  plain-snoc u (y ∷ zs) h = ground (arith, plain-snoc u zs)

  pub defaults-snoc :
      (zs : List Zone) → defaults (zs ++ z ∷ []) ≡ defaults zs + (if z.is_default then 1 else 0)
  defaults-snoc [] = ground arith
  defaults-snoc (y ∷ zs) = ground (arith, defaults-snoc zs)

pub ref_mono :
    (zs ys : List Zone)
    → ((u : Uuid) → zone_exists u zs ≡ true → zone_exists u ys ≡ true)
    → (o : Option Uuid) → zone_ref_ok o zs ≡ true
    → zone_ref_ok o ys ≡ true
unfolding zone_ref_ok
ref_mono zs ys f none h = refl
ref_mono zs ys f (some u) h = f u h

pub plain-exists : (u : Uuid) (zs : List Zone) → is_plain u zs ≡ true → zone_exists u zs ≡ true
unfolding zone_exists
plain-exists u [] h = cc
plain-exists u (y ∷ zs) h = ground (arith, plain-exists u zs)

pub no_default-defaults : (zs : List Zone) → any (λ y. y.is_default) zs ≡ false → defaults zs ≡ 0
no_default-defaults [] h = refl
no_default-defaults (y ∷ zs) h = ground (arith, no_default-defaults zs)

module _ (w : Uuid) (name : Str) where
  set_name-ne :
      (u : Uuid) (zs : List Zone)
      → All (λ y. u ≢ y.id) zs
      → All (λ y. u ≢ y.id) (set_name w name zs)
  unfolding set_name
  set_name-ne u [] h = tt
  set_name-ne u (y ∷ zs) h = elim (Bool-cases (y.id == w)) [
    | inl e ↦ rw e (h.0, set_name-ne u zs h.1)
    | inr e ↦ rw e (h.0, set_name-ne u zs h.1)
  ]

  pub set_name-Unique :
      (zs : List Zone) → Unique (λ z. z.id) zs → Unique (λ z. z.id) (set_name w name zs)
  unfolding set_name
  set_name-Unique [] h = tt
  set_name-Unique (y ∷ zs) h = elim (Bool-cases (y.id == w)) [
    | inl e ↦ rw e (set_name-ne y.id zs h.0, set_name-Unique zs h.1)
    | inr e ↦ rw e (set_name-ne y.id zs h.0, set_name-Unique zs h.1)
  ]

  pub exists-set_name :
      (u : Uuid) (zs : List Zone) → zone_exists u (set_name w name zs) ≡ zone_exists u zs
  unfolding zone_exists set_name
  exists-set_name u [] = refl
  exists-set_name u (y ∷ zs) = ground (arith, exists-set_name u zs)

  pub plain-set_name : (u : Uuid) (zs : List Zone) → is_plain u (set_name w name zs) ≡ is_plain u zs
  unfolding set_name
  plain-set_name u [] = refl
  plain-set_name u (y ∷ zs) = ground (arith, plain-set_name u zs)

  pub defaults-set_name : (zs : List Zone) → defaults (set_name w name zs) ≡ defaults zs
  unfolding set_name
  defaults-set_name [] = refl
  defaults-set_name (y ∷ zs) = ground (arith, defaults-set_name zs)

-- After the delete of zone `w`.
module _ (w : Uuid) where
  pub exists-keep :
      (u : Uuid) (zs : List Zone)
      → (u == w) ≡ false
      → zone_exists u zs ≡ true
      → zone_exists u (keep (λ y. not (y.id == w)) zs) ≡ true
  unfolding zone_exists
  exists-keep u [] n h = cc
  exists-keep u (y ∷ zs) n h = ground (arith, exists-keep u zs n)

  pub plain-keep :
      (u : Uuid) (zs : List Zone)
      → (u == w) ≡ false
      → is_plain u zs ≡ true
      → is_plain u (keep (λ y. not (y.id == w)) zs) ≡ true
  plain-keep u [] n h = cc
  plain-keep u (y ∷ zs) n h = ground (arith, plain-keep u zs n)

  pub defaults-keep : (zs : List Zone) → defaults (keep (λ y. not (y.id == w)) zs) ≤ defaults zs
  defaults-keep [] = omega arith
  defaults-keep (y ∷ zs) = ground (arith, defaults-keep zs)

-- After the default has moved to zone `w`.
module _ (w : Uuid) where
  pub exists-moved :
      (u : Uuid) (zs : List Zone)
      → zone_exists u (mark_default w (clear_default zs)) ≡ zone_exists u zs
  unfolding zone_exists mark_default clear_default
  exists-moved u [] = refl
  exists-moved u (y ∷ zs) = ground (arith, exists-moved u zs)

  pub plain-moved :
      (u : Uuid) (zs : List Zone)
      → (u == w) ≡ false
      → zone_exists u zs ≡ true
      → is_plain u (mark_default w (clear_default zs)) ≡ true
  unfolding zone_exists mark_default clear_default
  plain-moved u [] n h = cc
  plain-moved u (y ∷ zs) n h = ground (arith, plain-moved u zs n)

  moved-ne :
      (u : Uuid) (zs : List Zone)
      → All (λ y. u ≢ y.id) zs
      → All (λ y. u ≢ y.id) (mark_default w (clear_default zs))
  unfolding mark_default clear_default
  moved-ne u [] h = tt
  moved-ne u (y ∷ zs) h = elim (Bool-cases (y.id == w)) [
    | inl e ↦ rw e (h.0, moved-ne u zs h.1)
    | inr e ↦ rw e (h.0, moved-ne u zs h.1)
  ]

  pub moved-Unique :
      (zs : List Zone)
      → Unique (λ z. z.id) zs
      → Unique (λ z. z.id) (mark_default w (clear_default zs))
  unfolding mark_default clear_default
  moved-Unique [] h = tt
  moved-Unique (y ∷ zs) h = elim (Bool-cases (y.id == w)) [
    | inl e ↦ rw e (moved-ne y.id zs h.0, moved-Unique zs h.1)
    | inr e ↦ rw e (moved-ne y.id zs h.0, moved-Unique zs h.1)
  ]

  defaults-moved_absent :
      (zs : List Zone) → All (λ y. w ≢ y.id) zs → defaults (mark_default w (clear_default zs)) ≡ 0
  unfolding mark_default clear_default
  defaults-moved_absent [] h = refl
  defaults-moved_absent (y ∷ zs) h =
      ground (arith, h.0, ==_iff y.id w, defaults-moved_absent zs h.1)

  -- Exactly one default, where the zone is there.
  pub defaults-moved :
      (zs : List Zone)
      → Unique (λ z. z.id) zs
      → zone_exists w zs ≡ true
      → defaults (mark_default w (clear_default zs)) ≡ 1
  unfolding zone_exists mark_default clear_default
  defaults-moved [] u h = absurd (cc)
  defaults-moved (y ∷ zs) u h = elim (Bool-cases (y.id == w)) [
    | inl e ↦ rw e (
        ap (λ (n : ℕ). 1 + n)
          (unfold mark_default clear_default in
            (defaults-moved_absent zs
              (subst (λ i. All (λ y'. i ≢ y'.id) zs) ((==_iff y.id w).0 e) u.0))))
    | inr e ↦ rw e (let ih = defaults-moved zs u.1 (rw e at h) in omega (arith, ih))
  ]
