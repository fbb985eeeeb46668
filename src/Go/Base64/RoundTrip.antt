-- ===== src/Go/Base64/RoundTrip.antt =====
-- What `base64.RawURLEncoding` encodes, it decodes.
use sandcastle.Prelude.{
  ℕ, ◌+◌, ◌*◌, ◌/◌, ◌%◌, ◌<◌, ◌≡◌, refl, ap, false, not, Option, some, List, [], ◌∷◌, ◌++◌, Str,
  ◌==◌, keep, All, arith,
}
use sandcastle.Go.Base64.{
  letter, sextet, encode, two, three, four, join_groups, decode_letters, is_line_end, decode,
}

unfoldable pub IsByte : ℕ → Type 0
IsByte b = b < 256

-- A character of the alphabet.
unfoldable IsLetter : ℕ → Type 0
IsLetter c = (is_line_end c ≡ false) × ((c == b'.') ≡ false)

sextet-letter : (n : ℕ) → n < 64 → sextet (letter n) ≡ some n
unfolding sextet letter
sextet-letter n h = ground arith

letter-IsLetter : (n : ℕ) → n < 64 → IsLetter (letter n)
unfolding letter IsLetter is_line_end
letter-IsLetter n h = (ground arith, ground arith)

-- The groups.
two_back : (a : ℕ) → a < 256 → two (some (a / 4)) (some ((a % 4) * 16)) ≡ some (a ∷ [])
unfolding two
two_back a h = ap (λ n. some (n ∷ [])) (omega arith)

three_back :
    (a b : ℕ)
    → a < 256
    → b < 256
    → three (some (a / 4)) (some ((a % 4) * 16 + b / 16)) (some ((b % 16) * 4)) ≡ some (a ∷ b ∷ [])
unfolding three two
three_back a b h k =
    let p : (a / 4) * 4 + ((a % 4) * 16 + b / 16) / 16 ≡ a = omega arith in
    let q : (((a % 4) * 16 + b / 16) % 16) * 16 + ((b % 16) * 4) / 4 ≡ b = omega arith in
    rw (p, q) refl

four_back :
    (a b c : ℕ)
    → a < 256
    → b < 256
    → c < 256
    → four
        (some (a / 4))
        (some ((a % 4) * 16 + b / 16))
        (some ((b % 16) * 4 + c / 64))
        (some (c % 64))
      ≡ some (a ∷ b ∷ c ∷ [])
unfolding four three two
four_back a b c h k l =
    let p : (a / 4) * 4 + ((a % 4) * 16 + b / 16) / 16 ≡ a = omega arith in
    let q : (((a % 4) * 16 + b / 16) % 16) * 16 + ((b % 16) * 4 + c / 64) / 4 ≡ b = omega arith in
    let r : (((b % 16) * 4 + c / 64) % 4) * 64 + c % 64 ≡ c = omega arith in rw (p, q, r) refl

join_back :
    (x y : Option (List ℕ)) (s t : List ℕ)
    → x ≡ some s
    → y ≡ some t
    → join_groups x y ≡ some (s ++ t)
unfolding join_groups
join_back x y s t p q = rw (p, q) refl

pub decode_letters-encode : (s : List ℕ) → All IsByte s → decode_letters (encode s) ≡ some s
unfolding decode_letters encode IsByte
decode_letters-encode [] h = refl
decode_letters-encode (a ∷ []) h =
    rw (sextet-letter (a / 4) (omega arith), sextet-letter ((a % 4) * 16) (omega arith))
      (two_back a h.0)
decode_letters-encode (a ∷ b ∷ []) h =
    rw
      (
        sextet-letter (a / 4) (omega arith),
        sextet-letter ((a % 4) * 16 + b / 16) (omega arith),
        sextet-letter ((b % 16) * 4) (omega arith),
      )
      (three_back a b h.0 h.1.0)
decode_letters-encode (a ∷ b ∷ c ∷ rest) h =
    rw
      (
        sextet-letter (a / 4) (omega arith),
        sextet-letter ((a % 4) * 16 + b / 16) (omega arith),
        sextet-letter ((b % 16) * 4 + c / 64) (omega arith),
        sextet-letter (c % 64) (omega arith),
      )
      (join_back _ _ (a ∷ b ∷ c ∷ []) rest (four_back a b c h.0 h.1.0 h.1.1.0)
        (decode_letters-encode rest h.1.1.1))

encode-All : (s : List ℕ) → All IsByte s → All IsLetter (encode s)
unfolding encode IsByte
encode-All [] h = tt
encode-All (a ∷ []) h =
    (letter-IsLetter (a / 4) (omega arith), (letter-IsLetter ((a % 4) * 16) (omega arith), tt))
encode-All (a ∷ b ∷ []) h = (
  letter-IsLetter (a / 4) (omega arith),
  (
    letter-IsLetter ((a % 4) * 16 + b / 16) (omega arith),
    (letter-IsLetter ((b % 16) * 4) (omega arith), tt),
  ),
)
encode-All (a ∷ b ∷ c ∷ rest) h = (
  letter-IsLetter (a / 4) (omega arith),
  (
    letter-IsLetter ((a % 4) * 16 + b / 16) (omega arith),
    (
      letter-IsLetter ((b % 16) * 4 + c / 64) (omega arith),
      (letter-IsLetter (c % 64) (omega arith), encode-All rest h.1.1.1),
    ),
  ),
)

keep_letters : (s : Str) → All IsLetter s → keep (λ c. not (is_line_end c)) s ≡ s
unfolding IsLetter
keep_letters [] h = refl
keep_letters (c ∷ s) h = rw h.0.0 (ap (λ t. c ∷ t) (keep_letters s h.1))

pub decode-encode : (s : List ℕ) → All IsByte s → decode (encode s) ≡ some s
unfolding decode
decode-encode s h = rw (keep_letters (encode s) (encode-All s h)) (decode_letters-encode s h)

no_dots : (s : Str) → All IsLetter s → All (λ c. (c == b'.') ≡ false) s
unfolding IsLetter
no_dots [] h = tt
no_dots (c ∷ s) h = (h.0.1, no_dots s h.1)

pub encode-no_dot : (s : List ℕ) → All IsByte s → All (λ c. (c == b'.') ≡ false) (encode s)
encode-no_dot s h = no_dots (encode s) (encode-All s h)
