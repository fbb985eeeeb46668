-- ===== src/Prelude/Regex.antt =====
-- The part of Go's `regexp` (and of Postgres's `~`) that the program's anchored patterns use: the
-- syntax, its language by recursion on the pattern, and a matcher by derivatives that runs.
pub mod Decides
pub mod Counts
use sandcastle.Prelude.{
  ℕ, zero, suc, ◌≡◌, ◌⊎◌, Bool, true, false, ◌&&◌, ◌||◌, List, [], ◌∷◌, ◌++◌, Str, leb, ◌==◌,
  if◌then◌else◌,
}

pub data Regex : Type 0 where
  none_of eps : Regex
  cls : (ℕ → Bool) → Regex
  seq alt : Regex → Regex → Regex
  star : Regex → Regex

-- The texts that split into parts of a language.
pub data Star (P : Str → Type 0) : Str → Type 0 where
  done : Star P []
  more : {a b s : Str} → s ≡ a ++ b → P a → Star P b → Star P s

-- The language of a pattern.
abbrev pub Lang : Regex → Str → Type 0
Lang none_of s = ⊥
Lang eps s = s ≡ []
Lang (cls p) s = (c : ℕ) × (s ≡ c ∷ []) × (p c ≡ true)
Lang (seq r q) s = (a : Str) × (b : Str) × (s ≡ a ++ b) × Lang r a × Lang q b
Lang (alt r q) s = Lang r s ⊎ Lang q s
Lang (star r) s = Star (Lang r) s

-- x?, x+, one character, a range of characters.
abbrev pub opt : Regex → Regex
opt r = alt eps r

abbrev pub plus : Regex → Regex
plus r = seq r (star r)

abbrev pub chr : ℕ → Regex
chr c = cls (λ d. d == c)

abbrev pub between : ℕ → ℕ → ℕ → Bool
between lo hi c = leb lo c && leb c hi

-- x{0,n} and x{m,m + n}.
unfoldable pub up_to : ℕ → Regex → Regex
up_to zero r = eps
up_to (suc n) r = opt (seq r (up_to n r))

unfoldable pub rep : ℕ → ℕ → Regex → Regex
unfolding up_to
rep zero n r = up_to n r
rep (suc m) n r = seq r (rep m n r)

unfoldable pub nullable : Regex → Bool
nullable none_of = false
nullable eps = true
nullable (cls p) = false
nullable (seq r q) = nullable r && nullable q
nullable (alt r q) = nullable r || nullable q
nullable (star r) = true

-- `seq` and `alt` without the parts that match nothing.
unfoldable pub seq_of : Regex → Regex → Regex
seq_of none_of q = none_of
seq_of eps q = q
seq_of r q = seq r q

unfoldable pub alt_of : Regex → Regex → Regex
alt_of none_of q = q
alt_of r none_of = r
alt_of r q = alt r q

-- What may follow a first character `c`.
unfoldable pub der : ℕ → Regex → Regex
unfolding nullable seq_of alt_of
der c none_of = none_of
der c eps = none_of
der c (cls p) = if p c then eps else none_of
der c (seq r q) =
    let rest = der c q in
    let first = seq_of (der c r) q in if nullable r then alt_of first rest else first
der c (alt r q) = alt_of (der c r) (der c q)
der c (star r) = seq_of (der c r) (star r)

unfoldable pub matches : Regex → Str → Bool
unfolding nullable der
matches r [] = nullable r
matches r (c ∷ s) = matches (der c r) s
