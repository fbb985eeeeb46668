-- ===== src/Go/Strings.antt =====
-- `strings.TrimSpace`, `strings.ToLower`, `strings.Cut` and `strings.TrimRight`. The table of lower
-- case letters is Unicode's, a parameter.
use mathlib.Core.List.{reverse}
use sandcastle.Prelude.{
  ℕ, ◌≡◌, refl, ap, Bool, false, ◌||◌, ◌&&◌, Option, none, some, [], ◌∷◌, ◌++◌, Str, ◌==◌, ==_iff,
  leb, map, any, if◌then◌else◌, All,
}

-- Unicode's White_Space.
unfoldable pub is_space : ℕ → Bool
is_space c =
    (leb 9 c && leb c 13)
    || (c == 32
        || (c == 0x85
            || (c == 0xa0
                || (c == 0x1680
                    || ((leb 0x2000 c && leb c 0x200a)
                        || (c == 0x2028
                            || (c == 0x2029 || (c == 0x202f || (c == 0x205f || c == 0x3000)))))))))

unfoldable pub trim_left : (ℕ → Bool) → Str → Str
trim_left p [] = []
trim_left p (c ∷ s) = if p c then trim_left p s else c ∷ s

unfoldable pub trim_right : (ℕ → Bool) → Str → Str
unfolding trim_left
trim_right p s = reverse (trim_left p (reverse s))

unfoldable pub trim_space : Str → Str
unfolding trim_left trim_right is_space
trim_space s = trim_right is_space (trim_left is_space s)

unfoldable pub to_lower : (ℕ → ℕ) → Str → Str
to_lower lower s = map lower s

-- The text before and after the first `d`.
unfoldable pub cut : ℕ → Str → Option (Str × Str)
cut d [] = none
cut d (c ∷ s) =
    if c == d then some ([], s) else elim (cut d s) [ none ↦ none | some (a, b) ↦ some (c ∷ a, b) ]

unfoldable pub contains : ℕ → Str → Bool
contains d s = any (λ c. c == d) s

-- The text before and after the last `d`.
unfoldable pub cut_last : ℕ → Str → Option (Str × Str)
cut_last d [] = none
cut_last d (c ∷ s) = elim (cut_last d s) [
  | some (a, b) ↦ some (c ∷ a, b)
  | none ↦ if c == d then some ([], s) else none
]

-- strings.CutPrefix: what follows the prefix, if it is there.
unfoldable pub cut_prefix : Str → Str → Option Str
cut_prefix [] s = some s
cut_prefix (c ∷ p) [] = none
cut_prefix (c ∷ p) (d ∷ s) = if c == d then cut_prefix p s else none

pub cut-append :
    (d : ℕ) (s t : Str) → All (λ c. (c == d) ≡ false) s → cut d (s ++ d ∷ t) ≡ some (s, t)
unfolding cut
cut-append d [] t h = rw ((==_iff d d).1 refl) refl
cut-append d (c ∷ s) t h = rw h.0 (
    ap
      (λ (o : Option (Str × Str)). elim o as (λ _. Option (Str × Str)) [
        | none ↦ none
        | some (a, b) ↦ some (c ∷ a, b)
      ])
      (cut-append d s t h.1))
