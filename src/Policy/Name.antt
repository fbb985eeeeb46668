-- ===== src/Policy/Name.antt =====
-- `nameRE` and `ValidName` of admin/internal/policy/policy.go.
pub mod Grammar
pub mod Plain
use sandcastle.Prelude.{ℕ, Bool, ◌&&◌, ◌||◌, ◌≡◌, refl, true, false, Str, codes, leb, ◌==◌, length}
use sandcastle.Prelude.Regex.{Regex, cls, seq, opt, plus, chr, between, rep, matches}

-- [a-z], [a-z0-9] and [a-z0-9-].
unfoldable pub is_lower : ℕ → Bool
is_lower c = between b'a' b'z' c

unfoldable pub is_alnum : ℕ → Bool
unfolding is_lower
is_alnum c = is_lower c || between b'0' b'9' c

unfoldable pub is_label_char : ℕ → Bool
unfolding is_alnum
is_label_char c = is_alnum c || c == b'-'

-- ([a-z0-9-]{0,61}[a-z0-9])?\.
abbrev pub label_rest_re : Regex
label_rest_re = seq (opt (seq (rep 0 61 (cls is_label_char)) (cls is_alnum))) (chr b'.')

-- [a-z0-9]([a-z0-9-]{0,61}[a-z0-9])?\.
abbrev pub label_re : Regex
label_re = seq (cls is_alnum) label_rest_re

-- ^(\*\.)?(…\.)+[a-z]{2,63}$
unfoldable pub name_re : Regex
unfolding rep is_label_char
name_re = seq (opt (seq (chr b'*') (chr b'.'))) (seq (plus label_re) (rep 2 61 (cls is_lower)))

-- The pattern admits ASCII only, so the length in bytes is that in characters where it matters.
unfoldable pub valid_name : Str → Bool
unfolding matches name_re
valid_name s = leb (length s) 253 && matches name_re s

valid_name_accepts :
    (valid_name (codes "example.com") ≡ true)
    × (valid_name (codes "*.example.com") ≡ true)
    × (valid_name (codes "a-b.c.io") ≡ true)
unfolding valid_name codes
valid_name_accepts = (refl, refl, refl)

valid_name_refuses :
    (valid_name (codes "") ≡ false)
    × (valid_name (codes "*") ≡ false)
    × (valid_name (codes "*.com.") ≡ false)
    × (valid_name (codes "Example.com") ≡ false)
    × (valid_name (codes "10.0.0.1") ≡ false)
    × (valid_name (codes "example") ≡ false)
    × (valid_name (codes "ex ample.com") ≡ false)
    × (valid_name (codes "*.*.example.com") ≡ false)
    × (valid_name (codes "-a.com") ≡ false)
    × (valid_name (codes "a.com:443") ≡ false)
unfolding valid_name codes
valid_name_refuses = (refl, refl, refl, refl, refl, refl, refl, refl, refl, refl)
