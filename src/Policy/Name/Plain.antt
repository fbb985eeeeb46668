-- ===== src/Policy/Name/Plain.antt =====
-- A valid name has no colon.
use sandcastle.Prelude.{
  ℕ, ◌≡◌, refl, sym, subst, Bool, true, false, List, [], ◌∷◌, arith, Str, All, All-append, ◌==◌,
}
use sandcastle.Prelude.Regex.Counts.{Run}
use sandcastle.Policy.Name.{is_lower, is_alnum, is_label_char, valid_name}
use sandcastle.Policy.Name.Grammar.{IsLabel, dotted, star_dot, valid→name}

abbrev pub NoColon : Str → Type 0
NoColon s = All (λ c. (c == b':') ≡ false) s

Run-NoColon :
    (p : ℕ → Bool) → ((c : ℕ) → p c ≡ true → (c == b':') ≡ false) → (s : Str) → Run p s → NoColon s
Run-NoColon p h [] r = tt
Run-NoColon p h (c ∷ s) r = (h c r.0, Run-NoColon p h s r.1)

is_lower_plain : (c : ℕ) → is_lower c ≡ true → (c == b':') ≡ false
unfolding is_lower
is_lower_plain c h = ground arith

is_label_char_plain : (c : ℕ) → is_label_char c ≡ true → (c == b':') ≡ false
unfolding is_label_char is_alnum is_lower
is_label_char_plain c h = ground arith

dotted-NoColon : (ls : List Str) → All IsLabel ls → NoColon (dotted ls)
dotted-NoColon [] h = tt
dotted-NoColon (l ∷ ls) h =
    All-append (λ c. (c == b':') ≡ false) l (b'.' ∷ dotted ls)
      (Run-NoColon is_label_char is_label_char_plain l h.0.chars) (refl, dotted-NoColon ls h.1)

star_dot-NoColon : (w : Bool) → NoColon (star_dot w)
star_dot-NoColon true = (refl, (refl, tt))
star_dot-NoColon false = tt

pub valid_name-NoColon : (s : Str) → valid_name s ≡ true → NoColon s
valid_name-NoColon s h =
    let n = (valid→name s h).1 in
    subst NoColon (sym n.splits) (
      All-append (λ c. (c == b':') ≡ false) (star_dot n.wild) _ (star_dot-NoColon n.wild)
        (All-append (λ c. (c == b':') ≡ false) (dotted (n.label ∷ n.labels)) n.top
          (dotted-NoColon (n.label ∷ n.labels) n.good)
          (Run-NoColon is_lower is_lower_plain n.top n.top_letters)))
