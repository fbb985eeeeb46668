-- ===== src/Prelude/Sort.antt =====
-- Go's `sort.Slice` and `sort.Strings`, as insertion by a test, and the lists that come out.
use sandcastle.Prelude.{
  ◌≡◌, ◌≢◌, refl, sym, ap, subst, ◌↔◌, ◌⊎◌, inl, inr, Bool, true, false, List, [], ◌∷◌, In, All,
  All-In, In-All, Bool-cases, if◌then◌else◌,
}

module _ {A : Type 0} (lt : A → A → Bool) where
  unfoldable pub insert : A → List A → List A
  insert a [] = a ∷ []
  insert a (x ∷ xs) = if lt x a then x ∷ insert a xs else a ∷ x ∷ xs

  unfoldable pub sort : List A → List A
  unfolding insert
  sort [] = []
  sort (x ∷ xs) = insert x (sort xs)

  pub In-insert : (b a : A) (xs : List A) → In b (insert a xs) ↔ ((b ≡ a) ⊎ In b xs)
  unfolding insert
  In-insert b a [] = (λ h. h, λ h. h)
  In-insert b a (x ∷ xs) = elim (Bool-cases (lt x a)) [
    | inl e ↦ rw e (
      λ h. elim h [
        | inl k ↦ inr (inl k)
        | inr m ↦ elim ((In-insert b a xs).0 m) [ inl k ↦ inl k | inr n ↦ inr (inr n) ]
      ],
      λ h. elim h [
        | inl k ↦ inr ((In-insert b a xs).1 (inl k))
        | inr m ↦ elim m [ inl k ↦ inl k | inr n ↦ inr ((In-insert b a xs).1 (inr n)) ]
      ],
    )
    | inr e ↦ rw e (λ h. h, λ h. h)
  ]

  -- Sorting keeps the members.
  pub In-sort : (b : A) (xs : List A) → In b (sort xs) ↔ In b xs
  unfolding sort
  In-sort b [] = (λ h. h, λ h. h)
  In-sort b (x ∷ xs) = (
    λ h. elim ((In-insert b x (sort xs)).0 h) [ inl k ↦ inl k | inr m ↦ inr ((In-sort b xs).0 m) ],
    λ h. (In-insert b x (sort xs)).1 (elim h [ inl k ↦ inl k | inr m ↦ inr ((In-sort b xs).1 m) ]),
  )

  -- Strictly increasing: every entry is below all that follow.
  abbrev pub IsIncreasing : List A → Type 0
  IsIncreasing [] = Unit
  IsIncreasing (x ∷ xs) = All (λ y. lt x y ≡ true) xs × IsIncreasing xs

-- No entry twice.
abbrev pub IsDistinct : {A : Type 0} → List A → Type 0
IsDistinct [] = Unit
IsDistinct (x ∷ xs) = All (λ y. x ≢ y) xs × IsDistinct xs

module _ {A : Type 0} (lt : A → A → Bool) (lt_irrefl : (a : A) → lt a a ≡ false)
    (lt_trans : (a b c : A) → lt a b ≡ true → lt b c ≡ true → lt a c ≡ true) where
  -- Of two increasing lists with the same members, the heads agree.
  head-eq :
      (x y : A) (xs ys : List A)
      → IsIncreasing lt (x ∷ xs)
      → IsIncreasing lt (y ∷ ys)
      → In x (y ∷ ys)
      → In y (x ∷ xs)
      → x ≡ y
  head-eq x y xs ys hx hy (inl e) m = e
  head-eq x y xs ys hx hy (inr k) (inl e) = sym e
  head-eq x y xs ys hx hy (inr k) (inr m) =
      let yx : lt y x ≡ true = All-In (λ z. lt y z ≡ true) x ys hy.0 k in
      let xy : lt x y ≡ true = All-In (λ z. lt x z ≡ true) y xs hx.0 m in
      absurd (cc (lt_trans x y x xy yx, lt_irrefl x))

  -- A member of an increasing list's tail is not its head.
  tail-ne : (x a : A) (xs : List A) → IsIncreasing lt (x ∷ xs) → In a xs → ¬ (a ≡ x)
  tail-ne x a xs h m e = cc (All-In (λ z. lt x z ≡ true) a xs h.0 m, lt_irrefl x, ap (lt x) e)

  tails :
      (x : A) (xs ys : List A)
      → IsIncreasing lt (x ∷ xs)
      → ((a : A) → In a (x ∷ xs) → In a (x ∷ ys))
      → (a : A) → In a xs
      → In a ys
  tails x xs ys h sub a m = elim (sub a (inr m)) [
    | inl e ↦ absurd (tail-ne x a xs h m e)
    | inr k ↦ k
  ]

  -- An increasing list is known by its members.
  pub increasing_unique :
      (xs ys : List A)
      → IsIncreasing lt xs
      → IsIncreasing lt ys
      → ((a : A) → In a xs ↔ In a ys)
      → xs ≡ ys
  increasing_unique [] [] hx hy same = refl
  increasing_unique [] (y ∷ ys) hx hy same = absurd ((same y).1 (inl refl))
  increasing_unique (x ∷ xs) [] hx hy same = absurd ((same x).0 (inl refl))
  increasing_unique (x ∷ xs) (y ∷ ys) hx hy same =
      let e : x ≡ y = head-eq x y xs ys hx hy ((same x).0 (inl refl)) ((same y).1 (inl refl)) in
      let hx' : IsIncreasing lt (y ∷ xs) = subst (λ z. IsIncreasing lt (z ∷ xs)) e hx in
      let same' : (a : A) → In a (y ∷ xs) ↔ In a (y ∷ ys) =
        subst (λ z. (a : A) → In a (z ∷ xs) ↔ In a (y ∷ ys)) e same in
      let rest : xs ≡ ys =
        increasing_unique xs ys hx.1 hy.1
          (λ a. (tails y xs ys hx' (λ b. (same' b).0) a, tails y ys xs hy (λ b. (same' b).1) a)) in
      cc (e, rest)

  module _ (lt_total : (a b : A) → lt a b ≡ false → lt b a ≡ false → a ≡ b) where
    insert-above :
        (z a : A) (xs : List A)
        → lt z a ≡ true
        → All (λ y. lt z y ≡ true) xs
        → All (λ y. lt z y ≡ true) (insert lt a xs)
    unfolding insert
    insert-above z a [] h k = (h, tt)
    insert-above z a (x ∷ xs) h k = elim (Bool-cases (lt x a)) [
      | inl e ↦ rw e (k.0, insert-above z a xs h k.1)
      | inr e ↦ rw e (h, k)
    ]

    above_trans :
        (a x : A) (xs : List A)
        → lt a x ≡ true
        → All (λ y. lt x y ≡ true) xs
        → All (λ y. lt a y ≡ true) xs
    above_trans a x [] h k = tt
    above_trans a x (y ∷ xs) h k = (lt_trans a x y h k.0, above_trans a x xs h k.1)

    insert-IsIncreasing :
        (a : A) (xs : List A)
        → All (λ y. a ≢ y) xs
        → IsIncreasing lt xs
        → IsIncreasing lt (insert lt a xs)
    unfolding insert
    insert-IsIncreasing a [] fresh h = (tt, tt)
    insert-IsIncreasing a (x ∷ xs) fresh h = elim (Bool-cases (lt x a)) [
      | inl e ↦ rw e (insert-above x a xs e h.0, insert-IsIncreasing a xs fresh.1 h.1)
      | inr e ↦
          let below : lt a x ≡ true = elim (Bool-cases (lt a x)) [
            | inl k ↦ k
            | inr k ↦ absurd (fresh.0 (lt_total a x k e))
          ] in
          rw e ((below, above_trans a x xs below h.0), h)
    ]

    fresh-sort : (a : A) (xs : List A) → All (λ y. a ≢ y) xs → All (λ y. a ≢ y) (sort lt xs)
    fresh-sort a xs h =
        In-All (λ y. a ≢ y) (sort lt xs) (λ y m. All-In (λ y. a ≢ y) y xs h ((In-sort lt y xs).0 m))

    -- Distinct entries come out strictly increasing.
    pub sort-IsIncreasing : (xs : List A) → IsDistinct xs → IsIncreasing lt (sort lt xs)
    unfolding sort
    sort-IsIncreasing [] d = tt
    sort-IsIncreasing (x ∷ xs) d =
        insert-IsIncreasing x (sort lt xs) (fresh-sort x xs d.0) (sort-IsIncreasing xs d.1)

    -- So the result does not depend on the order of what is sorted.
    pub sort_unique :
        (xs ys : List A)
        → IsDistinct xs
        → IsDistinct ys
        → ((a : A) → In a xs ↔ In a ys)
        → sort lt xs ≡ sort lt ys
    sort_unique xs ys dx dy same =
        increasing_unique (sort lt xs) (sort lt ys) (sort-IsIncreasing xs dx)
          (sort-IsIncreasing ys dy)
          (λ a. (
            λ m. (In-sort lt a ys).1 ((same a).0 ((In-sort lt a xs).0 m)),
            λ m. (In-sort lt a xs).1 ((same a).1 ((In-sort lt a ys).0 m)),
          ))
