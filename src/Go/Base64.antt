-- ===== src/Go/Base64.antt =====
-- `base64.RawURLEncoding`: three bytes are four letters, without padding. The decoder skips line
-- ends and does not test the bits that a short last group leaves over.
pub mod RoundTrip
use sandcastle.Prelude.{
  ℕ, ◌+◌, ◌-◌, ◌*◌, ◌/◌, ◌%◌, ◌≤◌, ◌<◌, ◌≡◌, refl, Bool, true, false, not, ◌&&◌, ◌||◌, Option, none,
  some, List, [], ◌∷◌, ◌++◌, Str, ◌==◌, leb, ltb, keep, All, arith, if◌then◌else◌,
}

-- The letter of six bits.
unfoldable pub letter : ℕ → ℕ
letter n =
    if ltb n 26
    then b'A' + n
    else if ltb n 52
    then b'a' + (n - 26)
    else if ltb n 62
    then b'0' + (n - 52)
    else if n == 62
    then b'-'
    else b'_'

unfoldable pub sextet : ℕ → Option ℕ
sextet c =
    if leb b'A' c && leb c b'Z'
    then some (c - b'A')
    else if leb b'a' c && leb c b'z'
    then some (26 + (c - b'a'))
    else if leb b'0' c && leb c b'9'
    then some (52 + (c - b'0'))
    else if c == b'-'
    then some 62
    else if c == b'_'
    then some 63
    else none

unfoldable pub encode : List ℕ → Str
encode [] = []
encode (a ∷ []) = letter (a / 4) ∷ letter ((a % 4) * 16) ∷ []
encode (a ∷ b ∷ []) = letter (a / 4) ∷ letter ((a % 4) * 16 + b / 16) ∷ letter ((b % 16) * 4) ∷ []
encode (a ∷ b ∷ c ∷ rest) =
    letter (a / 4)
    ∷ letter ((a % 4) * 16 + b / 16)
    ∷ letter ((b % 16) * 4 + c / 64)
    ∷ letter (c % 64)
    ∷ encode rest

-- The bytes of a group of two, three or four letters.
unfoldable pub two : Option ℕ → Option ℕ → Option (List ℕ)
two (some a) (some b) = some ((a * 4 + b / 16) ∷ [])
two (some a) none = none
two none b = none

unfoldable pub three : Option ℕ → Option ℕ → Option ℕ → Option (List ℕ)
unfolding two
three a (some b) (some c) = elim (two a (some b)) [
  | none ↦ none
  | some bytes ↦ some (bytes ++ ((b % 16) * 16 + c / 4) ∷ [])
]
three a (some b) none = none
three a none c = none

unfoldable pub four : Option ℕ → Option ℕ → Option ℕ → Option ℕ → Option (List ℕ)
unfolding three
four a b (some c) (some d) = elim (three a b (some c)) [
  | none ↦ none
  | some bytes ↦ some (bytes ++ ((c % 4) * 64 + d) ∷ [])
]
four a b (some c) none = none
four a b none d = none

unfoldable pub join_groups : Option (List ℕ) → Option (List ℕ) → Option (List ℕ)
join_groups (some a) (some b) = some (a ++ b)
join_groups (some a) none = none
join_groups none b = none

unfoldable pub decode_letters : Str → Option (List ℕ)
unfolding sextet two three four join_groups
decode_letters [] = some []
decode_letters (a ∷ []) = none
decode_letters (a ∷ b ∷ []) = two (sextet a) (sextet b)
decode_letters (a ∷ b ∷ c ∷ []) = three (sextet a) (sextet b) (sextet c)
decode_letters (a ∷ b ∷ c ∷ d ∷ rest) =
    join_groups (four (sextet a) (sextet b) (sextet c) (sextet d)) (decode_letters rest)

unfoldable pub is_line_end : ℕ → Bool
is_line_end c = c == 10 || c == 13

unfoldable pub decode : Str → Option (List ℕ)
unfolding decode_letters is_line_end
decode s = decode_letters (keep (λ c. not (is_line_end c)) s)
