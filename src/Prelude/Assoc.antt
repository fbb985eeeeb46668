-- ===== src/Prelude/Assoc.antt =====
-- Go's maps with text keys, as association lists. A map holds each key once.
use sandcastle.Prelude.{
  ◌≡◌, refl, Option, none, some, List, [], ◌∷◌, Str, str_eq, str_eq_iff, arith, map, if◌then◌else◌,
  true, In, All-In, inl, inr, ◌≢◌, sym, ap, Bool-cases, str_eq→eq, eq→str_eq,
}
use sandcastle.Prelude.Distinct.{Unique}

abbrev pub Map {ℓ} : Type ℓ → Type ℓ
Map V = List (Str × V)

module _ {ℓ} {V : Type ℓ} where
  abbrev pub keys : Map V → List Str
  keys = map (λ e. e.0)

  unfoldable pub get : Str → Map V → Option V
  get k [] = none
  get k ((j, v) ∷ m) = if str_eq j k then some v else get k m

  -- m[k] = v
  unfoldable pub put : Str → V → Map V → Map V
  put k v [] = (k, v) ∷ []
  put k v ((j, w) ∷ m) = if str_eq j k then (j, v) ∷ m else (j, w) ∷ put k v m

  pub get-put :
      (k j : Str) (v : V) (m : Map V) → get j (put k v m) ≡ (if str_eq k j then some v else get j m)
  unfolding get put
  get-put k j v [] = refl
  get-put k j v ((i, w) ∷ m) =
      ground (arith, str_eq_iff k j, str_eq_iff i k, str_eq_iff i j, get-put k j v m)

module _ {V : Type 0} where
  pub In-of-get : (k : Str) (v : V) (m : Map V) → get k m ≡ some v → In (k, v) m
  unfolding get
  In-of-get k v [] e = absurd (cc)
  In-of-get k v ((j, w) ∷ m) e = elim (Bool-cases (str_eq j k)) [
    | inl f ↦ let g : some w ≡ some v = rw f at e in inl (let q = str_eq→eq j k f in cc)
    | inr f ↦ inr (In-of-get k v m (rw f at e))
  ]

  -- A key that stands once is read where it stands.
  pub get-of-In :
      (k : Str) (v : V) (m : Map V) → Unique (λ e. e.0) m → In (k, v) m → get k m ≡ some v
  unfolding get
  get-of-In k v [] u h = elim h [ ]
  get-of-In k v ((j, w) ∷ m) u (inl e) =
      let f : str_eq j k ≡ true = eq→str_eq j k (sym (ap (λ (x : Str × V). x.0) e)) in
      rw f (ap (λ (x : Str × V). some x.1) (sym e))
  get-of-In k v ((j, w) ∷ m) u (inr h) = elim (Bool-cases (str_eq j k)) [
    | inl f ↦ absurd (All-In (λ (y : Str × V). j ≢ y.0) (k, v) m u.0 h (str_eq→eq j k f))
    | inr f ↦ rw f (get-of-In k v m u.1 h)
  ]
