-- ===== src/Prelude/Distinct.antt =====
-- Lists in which a column of native numbers or texts holds no value twice.
use sandcastle.Prelude.{
  ◌≡◌, ◌≢◌, inl, inr, Bool, false, List, [], ◌∷◌, ◌++◌, All, All-append, All-keep, any, keep, arith,
  Bool-cases,
}

module _ {A B : Type 0} (f : A → B) where
  -- No two entries share the column `f`.
  abbrev pub Unique : List A → Type 0
  Unique [] = Unit
  Unique (x ∷ xs) = All (λ y. f x ≢ f y) xs × Unique xs

  pub Unique-keep : (p : A → Bool) (xs : List A) → Unique xs → Unique (keep p xs)
  Unique-keep p [] h = tt
  Unique-keep p (x ∷ xs) h = elim (Bool-cases (p x)) [
    | inl e ↦ rw e (All-keep (λ y. f x ≢ f y) p xs h.0, Unique-keep p xs h.1)
    | inr e ↦ rw e (Unique-keep p xs h.1)
  ]

  -- A new entry whose column differs from all the others'.
  pub Unique-snoc :
      (a : A) (xs : List A) → All (λ y. f y ≢ f a) xs → Unique xs → Unique (xs ++ a ∷ [])
  Unique-snoc a [] n h = (tt, tt)
  Unique-snoc a (x ∷ xs) n h =
      (All-append (λ y. f x ≢ f y) xs (a ∷ []) h.0 (n.0, tt), Unique-snoc a xs n.1 h.1)

-- What an index test that finds nothing says of every entry.
pub none_of-any :
    {A : Type 0} (p : A → Bool) (xs : List A) → any p xs ≡ false → All (λ x. p x ≡ false) xs
none_of-any p [] h = tt
none_of-any p (x ∷ xs) h = (ground arith, none_of-any p xs (ground arith))
