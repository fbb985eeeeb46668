-- ===== src/Store/Invariant/Denials.antt =====
-- The cap of `RecordDenial`: no workspace has more than 200 rows.
use sandcastle.Prelude.{
  ℕ, ◌+◌, ◌≤◌, ◌≡◌, ◌≢◌, refl, ap, inl, inr, Bool, true, false, not, ◌&&◌, List, [], ◌∷◌, Str,
  str_eq, str_eq_refl, In, any, any_of-In, keep, length, take, drop, arith, ◌==◌, zero, suc,
}
use sandcastle.Prelude.Int.{ℤ, int_eq, int_eq_iff}
use sandcastle.Prelude.Sort.{sort, insert}
use sandcastle.Store.Db.{Uuid, Time, Denial}
use sandcastle.Store.Requests.{bump, bump_rows, newer, overflow, cap_denials, max_denials}

module _ {A : Type 0} (lt : A → A → Bool) (p : A → Bool) where
  length-keep-insert :
      (a : A) (xs : List A) → length (keep p (insert lt a xs)) ≡ length (keep p (a ∷ xs))
  unfolding insert
  length-keep-insert a [] = refl
  length-keep-insert a (x ∷ xs) = ground (arith, length-keep-insert a xs)

  -- Sorting changes no count.
  pub length-keep-sort : (xs : List A) → length (keep p (sort lt xs)) ≡ length (keep p xs)
  unfolding sort
  length-keep-sort [] = refl
  length-keep-sort (x ∷ xs) = ground (arith, length-keep-insert x (sort lt xs), length-keep-sort xs)

module _ {A : Type 0} where
  keep-split :
      (p : A → Bool) (n : ℕ) (xs : List A)
      → length (keep p xs) ≡ length (keep p (take n xs)) + length (keep p (drop n xs))
  keep-split p zero xs = omega arith
  keep-split p (suc n) [] = omega arith
  keep-split p (suc n) (x ∷ xs) = ground (arith, keep-split p n xs)

  length-keep-take : (p : A → Bool) (n : ℕ) (xs : List A) → length (keep p (take n xs)) ≤ n
  length-keep-take p zero xs = omega arith
  length-keep-take p (suc n) [] = omega arith
  length-keep-take p (suc n) (x ∷ xs) = ground (arith, length-keep-take p n xs)

  keep-none : (p : A → Bool) (xs : List A) → ((a : A) → In a xs → p a ≡ false) → keep p xs ≡ []
  keep-none p [] h = refl
  keep-none p (x ∷ xs) h = rw (h x (inl refl)) (keep-none p xs (λ a m. h a (inr m)))

  -- A test on the rows that pass another.
  keep-keep : (p q : A → Bool) (xs : List A) → keep p (keep q xs) ≡ keep (λ x. q x && p x) xs
  keep-keep p q [] = refl
  keep-keep p q (x ∷ xs) = ground (arith, keep-keep p q xs)

  length-keep-le_keep :
      (p q : A → Bool) (xs : List A)
      → ((a : A) → p a ≡ true → q a ≡ true)
      → length (keep p xs) ≤ length (keep q xs)
  length-keep-le_keep p q [] h = omega arith
  length-keep-le_keep p q (x ∷ xs) h = ground (arith, h x, length-keep-le_keep p q xs h)

abbrev named_by : List Denial → Denial → Bool
named_by es d = any (λ e. str_eq d.host e.host && int_eq d.port e.port) es

named_self : (es : List Denial) (d : Denial) → In d es → named_by es d ≡ true
named_self es d m =
    any_of-In (λ e. str_eq d.host e.host && int_eq d.port e.port) d es m
      (ground (arith, str_eq_refl d.host, int_eq_iff d.port d.port))

-- What the cap leaves of the capped workspace.
left_after :
    (ws : Uuid) (rows : List Denial)
    → keep (λ d. d.workspace_id == ws) (cap_denials ws rows)
      ≡ keep (λ d. not (named_by (overflow ws rows) d)) (keep (λ d. d.workspace_id == ws) rows)
unfolding cap_denials
left_after ws rows = go (overflow ws rows) rows
  where
    go :
        (es : List Denial) (ds : List Denial)
        → keep
            (λ d. d.workspace_id == ws)
            (keep (λ d. not (d.workspace_id == ws && named_by es d)) ds)
          ≡ keep (λ d. not (named_by es d)) (keep (λ d. d.workspace_id == ws) ds)
    go es [] = refl
    go es (d ∷ ds) = ground (arith, go es ds)

-- After the cap the workspace has at most 200 rows.
pub cap_denials_bound :
    (ws : Uuid) (rows : List Denial)
    → length (keep (λ d. d.workspace_id == ws) (cap_denials ws rows)) ≤ max_denials
unfolding overflow
cap_denials_bound ws rows =
    let mine = keep (λ d. d.workspace_id == ws) rows in
    let kept = λ (d : Denial). not (named_by (overflow ws rows) d) in
    let sorted = sort newer mine in
    let gone : keep kept (drop max_denials sorted) ≡ [] =
      keep-none kept (drop max_denials sorted)
        (λ d m. ap not (named_self (overflow ws rows) d m)) in
    omega (
      arith,
      ap length (left_after ws rows),
      length-keep-sort newer kept mine,
      keep-split kept max_denials sorted,
      length-keep-take kept max_denials sorted,
      ap length gone,
    )

-- It deletes no row of another workspace.
pub cap_denials_others :
    (ws v : Uuid) (rows : List Denial)
    → v ≢ ws
    → keep (λ d. d.workspace_id == v) (cap_denials ws rows) ≡ keep (λ d. d.workspace_id == v) rows
unfolding cap_denials
cap_denials_others ws v rows n = go (overflow ws rows) rows
  where
    go :
        (es : List Denial) (ds : List Denial)
        → keep
            (λ d. d.workspace_id == v)
            (keep (λ d. not (d.workspace_id == ws && named_by es d)) ds)
          ≡ keep (λ d. d.workspace_id == v) ds
    go es [] = refl
    go es (d ∷ ds) = ground (arith, go es ds)

pub length-keep-bump_rows :
    (now : Time) (ws : Uuid) (host : Str) (port : ℤ) (v : Uuid) (rows : List Denial)
    → length (keep (λ d. d.workspace_id == v) (bump_rows now ws host port rows))
      ≡ length (keep (λ d. d.workspace_id == v) rows)
unfolding bump_rows bump
length-keep-bump_rows now ws host port v [] = refl
length-keep-bump_rows now ws host port v (d ∷ rows) =
    ground (arith, length-keep-bump_rows now ws host port v rows)
