-- ===== src/Go/Numbers.antt =====
-- `strconv.Atoi` and the decimal form of an unsigned number.
use sandcastle.Prelude.{
  ℕ, zero, suc, ◌+◌, ◌-◌, ◌*◌, ◌/◌, ◌%◌, ◌≤◌, ◌<◌, ◌≡◌, refl, Bool, true, false, ◌&&◌, Option, none,
  some, [], ◌∷◌, Str, ◌==◌, leb, ltb, arith, if◌then◌else◌, Bool-cases, inl, inr, ltb→lt, ◌∙◌,
}
use sandcastle.Prelude.Int.{ℤ, pos, negsuc}

abbrev pub max_int : ℕ
max_int = 9223372036854775807

abbrev pub is_digit : ℕ → Bool
is_digit c = leb b'0' c && leb c b'9'

-- The value of a text of digits.
unfoldable pub digits : ℕ → Str → Option ℕ
digits acc [] = some acc
digits acc (c ∷ s) =
    let rest = digits (acc * 10 + (c - b'0')) s in if is_digit c then rest else none

unfoldable pub unsigned : Str → Option ℕ
unsigned [] = none
unsigned (c ∷ s) = digits 0 (c ∷ s)

-- The value, clamped to 64 bits, and whether there was no error.
unfoldable pub signed : Bool → Option ℕ → ℤ × Bool
signed minus none = (pos 0, false)
signed false (some n) = if leb n max_int then (pos n, true) else (pos max_int, false)
signed true (some zero) = (pos 0, true)
signed true (some (suc n)) = if leb n max_int then (negsuc n, true) else (negsuc max_int, false)

unfoldable pub atoi : Str → ℤ × Bool
unfolding signed unsigned digits
atoi [] = (pos 0, false)
atoi (c ∷ s) =
    if c == b'-'
    then signed true (unsigned s)
    else if c == b'+'
    then signed false (unsigned s)
    else signed false (unsigned (c ∷ s))

-- The digits of `n`, before `rest`; as many rounds as `n` has digits are enough.
unfoldable pub decimal_from : ℕ → ℕ → Str → Str
decimal_from zero n rest = rest
decimal_from (suc f) n rest =
    let more = decimal_from f (n / 10) ((b'0' + n % 10) ∷ rest) in
    if ltb n 10 then (b'0' + n) ∷ rest else more

unfoldable pub decimal : ℕ → Str
unfolding decimal_from
decimal n = decimal_from (suc n) n []

unfoldable pub show_int : ℤ → Str
unfolding decimal
show_int (pos n) = decimal n
show_int (negsuc n) = b'-' ∷ decimal (suc n)

-- The rounds are enough: the decimal form of a number has its value, and so no digit is missing.
digits-decimal_from :
    (f n : ℕ) (rest : Str) → n < f → digits 0 (decimal_from f n rest) ≡ digits n rest
unfolding digits decimal_from
digits-decimal_from zero n rest h = absurd (omega arith)
digits-decimal_from (suc f) n rest h = elim (Bool-cases (ltb n 10)) [
  | inl e ↦
      let l = ltb→lt n 10 e in
      let d : is_digit (b'0' + n) ≡ true = ground arith in
      let v : 0 * 10 + ((b'0' + n) - b'0') ≡ n = omega arith in rw (e, d, v) refl
  | inr e ↦
      let l : 10 ≤ n = ground arith in
      let d : is_digit (b'0' + n % 10) ≡ true = ground arith in
      let v : (n / 10) * 10 + ((b'0' + n % 10) - b'0') ≡ n = omega arith in
      let ih = digits-decimal_from f (n / 10) ((b'0' + n % 10) ∷ rest) (omega arith) in
      rw e (ih ∙ rw (d, v) refl)
]

pub digits-decimal : (n : ℕ) → digits 0 (decimal n) ≡ some n
unfolding decimal digits
digits-decimal n = digits-decimal_from (suc n) n [] (omega arith)
