-- ===== src/Go/Url.antt =====
-- `url.QueryEscape`, on the UTF-8 bytes of a text.
use sandcastle.Prelude.{
  ℕ, ◌+◌, ◌-◌, ◌/◌, ◌%◌, Bool, ◌&&◌, ◌||◌, [], ◌∷◌, ◌++◌, Str, ◌==◌, leb, ltb, if◌then◌else◌, List,
}

unfoldable pub utf8_char : ℕ → List ℕ
utf8_char c =
    if ltb c 0x80
    then c ∷ []
    else if ltb c 0x800
    then (0xc0 + c / 64) ∷ (0x80 + c % 64) ∷ []
    else if ltb c 0x10000
    then (0xe0 + c / 4096) ∷ (0x80 + (c / 64) % 64) ∷ (0x80 + c % 64) ∷ []
    else (0xf0 + c / 262144)
      ∷ (0x80 + (c / 4096) % 64)
      ∷ (0x80 + (c / 64) % 64)
      ∷ (0x80 + c % 64)
      ∷ []

unfoldable pub utf8 : Str → List ℕ
unfolding utf8_char
utf8 [] = []
utf8 (c ∷ s) = utf8_char c ++ utf8 s

-- A-Z, a-z, 0-9, '-', '_', '.' and '~'.
unfoldable pub is_unreserved : ℕ → Bool
is_unreserved c =
    (leb b'A' c && leb c b'Z')
    || ((leb b'a' c && leb c b'z')
        || ((leb b'0' c && leb c b'9') || (c == b'-' || (c == b'_' || (c == b'.' || c == b'~')))))

unfoldable pub hex_upper : ℕ → ℕ
hex_upper n = if ltb n 10 then b'0' + n else b'A' + (n - 10)

unfoldable pub escape_bytes : List ℕ → Str
escape_bytes [] = []
escape_bytes (c ∷ s) =
    (if is_unreserved c
      then c ∷ []
      else if c == 32
      then b'+' ∷ []
      else b'%' ∷ hex_upper (c / 16) ∷ hex_upper (c % 16) ∷ [])
    ++ escape_bytes s

unfoldable pub query_escape : Str → Str
unfolding escape_bytes utf8 is_unreserved hex_upper
query_escape s = escape_bytes (utf8 s)
