-- ===== src/Prelude/Affix.antt =====
-- Go's `strings.HasPrefix`, `strings.HasSuffix` and `strings.CutPrefix`.
use mathlib.Core.List.{append_assoc}
use sandcastle.Prelude.{
  ℕ, ◌≤◌, ◌≡◌, sym, ap, subst, ◌∙◌, inl, inr, Bool, true, false, ◌||◌, ◌&&◌, [], ◌∷◌, ◌++◌, Str,
  str_eq, str_eq→eq, str_eq_refl, ◌==◌, length, length-append, Bool-cases, arith, Option, none,
  some, if◌then◌else◌,
}

unfoldable pub has_prefix : Str → Str → Bool
has_prefix s [] = true
has_prefix [] (d ∷ t) = false
has_prefix (c ∷ s) (d ∷ t) = c == d && has_prefix s t

unfoldable pub has_suffix : Str → Str → Bool
has_suffix [] t = str_eq [] t
has_suffix (c ∷ s) t = str_eq (c ∷ s) t || has_suffix s t

-- CutPrefix of a one-character prefix.
unfoldable pub cut_char : ℕ → Str → Option Str
cut_char d [] = none
cut_char d (c ∷ s) = if c == d then some s else none

pub has_suffix→split : (s t : Str) → has_suffix s t ≡ true → (p : Str) × (s ≡ p ++ t)
unfolding has_suffix
has_suffix→split [] t h = ([], str_eq→eq [] t h)
has_suffix→split (c ∷ s) t h = elim (Bool-cases (str_eq (c ∷ s) t)) [
  | inl e ↦ ([], str_eq→eq (c ∷ s) t e)
  | inr e ↦ let (p, k) = has_suffix→split s t (rw e at h) in (c ∷ p, ap (◌∷◌ c) k)
]

pub split→has_suffix : (p t : Str) → has_suffix (p ++ t) t ≡ true
unfolding has_suffix
split→has_suffix [] [] = str_eq_refl []
split→has_suffix [] (d ∷ t) = rw (str_eq_refl (d ∷ t))
split→has_suffix (c ∷ p) t = ground (arith, split→has_suffix p t)

-- A suffix of a suffix is a suffix.
pub has_suffix_trans :
    (s t u : Str) → has_suffix s t ≡ true → has_suffix t u ≡ true → has_suffix s u ≡ true
has_suffix_trans s t u h k =
    let (p, e) = has_suffix→split s t h in
    let (q, f) = has_suffix→split t u k in
    subst (λ x. has_suffix x u ≡ true) (sym (e ∙ ap (λ (x : Str). p ++ x) f ∙ regroup p q u))
      (split→has_suffix (p ++ q) u)
  where
    regroup : (p q u : Str) → p ++ (q ++ u) ≡ (p ++ q) ++ u
    regroup p q u = sym (append_assoc p q u)

pub length-suffix-le : (s t : Str) → has_suffix s t ≡ true → length t ≤ length s
length-suffix-le s t h =
    let (p, e) = has_suffix→split s t h in omega (arith, ap length e, length-append p t)

-- Of two suffixes of one text, the shorter is a suffix of the longer.
pub has_suffix_nested :
    (s t u : Str)
    → has_suffix s t ≡ true
    → has_suffix s u ≡ true
    → length u ≤ length t
    → has_suffix t u ≡ true
unfolding has_suffix
has_suffix_nested [] t u h k l = rw (← str_eq→eq [] t h) k
has_suffix_nested (c ∷ s) t u h k l = elim (Bool-cases (str_eq (c ∷ s) t)) [
  | inl e ↦ rw (← str_eq→eq (c ∷ s) t e) k
  | inr e ↦
      let h' : has_suffix s t ≡ true = rw e at h in
      elim (Bool-cases (str_eq (c ∷ s) u)) [
        | inl f ↦ absurd (omega (arith, length-suffix-le s t h', ap length (str_eq→eq (c ∷ s) u f)))
        | inr f ↦ has_suffix_nested s t u h' (rw f at k) l
      ]
]
