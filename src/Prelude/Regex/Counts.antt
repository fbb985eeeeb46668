-- ===== src/Prelude/Regex/Counts.antt =====
-- Bounded repetitions of one character class: the lengths, and the class of every character.
use sandcastle.Prelude.{
  ℕ, zero, suc, ◌+◌, ◌≤◌, ◌≡◌, refl, ap, ◌∙◌, inl, inr, Bool, true, [], ◌∷◌, ◌++◌, arith, Str,
  length, All,
}
use sandcastle.Prelude.Regex.{Regex, cls, seq, Lang, up_to, rep}

-- A character of the class, then a text of the rest.
pub one_then :
    (p : ℕ → Bool) (q : Regex) (s : Str)
    → Lang (seq (cls p) q) s
    → (c : ℕ) × (t : Str) × (s ≡ c ∷ t) × (p c ≡ true) × Lang q t
one_then p q s (a, b, e, (c, f, h), k) = (c, b, e ∙ ap (λ (x : Str). x ++ b) f, h, k)

pub then_one :
    (p : ℕ → Bool) (q : Regex) (c : ℕ) (t : Str)
    → p c ≡ true
    → Lang q t
    → Lang (seq (cls p) q) (c ∷ t)
then_one p q c t h k = (c ∷ [], t, refl, (c, refl, h), k)

abbrev pub Run : (ℕ → Bool) → Str → Type 0
Run p s = All (λ c. p c ≡ true) s

pub Lang→up_to :
    (n : ℕ) (p : ℕ → Bool) (s : Str) → Lang (up_to n (cls p)) s → (length s ≤ n) × Run p s
unfolding up_to
Lang→up_to zero p s e = rw e (omega arith, tt)
Lang→up_to (suc n) p s (inl e) = rw e (omega arith, tt)
Lang→up_to (suc n) p s (inr h) =
    let (c, t, e, pc, k) = one_then p (up_to n (cls p)) s h in
    let (l, r) = Lang→up_to n p t k in rw e (omega arith, (pc, r))

pub up_to→Lang :
    (n : ℕ) (p : ℕ → Bool) (s : Str) → length s ≤ n → Run p s → Lang (up_to n (cls p)) s
unfolding up_to
up_to→Lang zero p [] l r = refl
up_to→Lang zero p (c ∷ s) l r = absurd (omega arith)
up_to→Lang (suc n) p [] l r = inl refl
up_to→Lang (suc n) p (c ∷ s) l r =
    inr (then_one p (up_to n (cls p)) c s r.0 (up_to→Lang n p s (omega arith) r.1))

pub Lang→rep :
    (m n : ℕ) (p : ℕ → Bool) (s : Str)
    → Lang (rep m n (cls p)) s
    → (m ≤ length s) × (length s ≤ m + n) × Run p s
unfolding rep
Lang→rep zero n p s h = let (l, r) = Lang→up_to n p s h in (omega arith, omega arith, r)
Lang→rep (suc m) n p s h =
    let (c, t, e, pc, k) = one_then p (rep m n (cls p)) s h in
    let (l, u, r) = Lang→rep m n p t k in rw e (omega arith, omega arith, (pc, r))

pub rep→Lang :
    (m n : ℕ) (p : ℕ → Bool) (s : Str)
    → m ≤ length s
    → length s ≤ m + n
    → Run p s
    → Lang (rep m n (cls p)) s
unfolding rep
rep→Lang zero n p s l u r = up_to→Lang n p s (omega arith) r
rep→Lang (suc m) n p [] l u r = absurd (omega arith)
rep→Lang (suc m) n p (c ∷ s) l u r =
    then_one p (rep m n (cls p)) c s r.0 (rep→Lang m n p s (omega arith) (omega arith) r.1)
