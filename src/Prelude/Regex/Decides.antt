-- ===== src/Prelude/Regex/Decides.antt =====
-- The matcher decides the language of every pattern.
use sandcastle.Prelude.{
  ℕ, ◌≡◌, refl, sym, ap, ◌∙◌, subst, ◌↔◌, ◌⊎◌, inl, inr, true, [], ◌∷◌, ◌++◌, arith, Str,
  Bool-cases, &&_split,
}
use sandcastle.Prelude.Regex.{
  Regex, none_of, eps, cls, seq, alt, star, Star, done, more, Lang, nullable, seq_of, alt_of, der,
  matches,
}

-- A text that begins with `c` and splits: the first part is empty, or begins with `c`.
cons_split :
    (c : ℕ) (s a b : Str)
    → c ∷ s ≡ a ++ b
    → ((a ≡ []) × (b ≡ c ∷ s)) ⊎ ((a' : Str) × (a ≡ c ∷ a') × (s ≡ a' ++ b))
cons_split c s [] b e = inl (refl, sym e)
cons_split c s (d ∷ a') b e = inr (a', ground arith, ground arith)

nil_split : (a b : Str) → [] ≡ a ++ b → (a ≡ []) × (b ≡ [])
nil_split [] b e = (refl, sym e)
nil_split (c ∷ a) b e = absurd (cc)

nullable→Lang : (r : Regex) → nullable r ≡ true → Lang r []
unfolding nullable
nullable→Lang none_of h = cc
nullable→Lang eps h = refl
nullable→Lang (cls p) h = absurd (cc)
nullable→Lang (seq r q) h =
    let (k, l) = &&_split {a = nullable r} {b = nullable q} h in
    ([], [], refl, nullable→Lang r k, nullable→Lang q l)
nullable→Lang (alt r q) h = elim (Bool-cases (nullable r)) [
  | inl e ↦ inl (nullable→Lang r e)
  | inr e ↦ inr (nullable→Lang q (ground arith))
]
nullable→Lang (star r) h = done

Lang→nullable : (r : Regex) (s : Str) → s ≡ [] → Lang r s → nullable r ≡ true
unfolding nullable
Lang→nullable none_of s n h = elim h [ ]
Lang→nullable eps s n h = refl
Lang→nullable (cls p) s n (c, e, h) = absurd (cc)
Lang→nullable (seq r q) s n (a, b, e, h, k) =
    let (ea, eb) = nil_split a b (sym n ∙ e) in
    ground (arith, Lang→nullable r a ea h, Lang→nullable q b eb k)
Lang→nullable (alt r q) s n (inl h) = rw (Lang→nullable r s n h)
Lang→nullable (alt r q) s n (inr h) = ground (arith, Lang→nullable q s n h)
Lang→nullable (star r) s n h = refl

-- The short forms have the languages of the long ones.
seq_of-Lang : (r q : Regex) (s : Str) → Lang (seq_of r q) s ↔ Lang (seq r q) s
unfolding seq_of
seq_of-Lang none_of q s = (λ h. absurd h, λ (a, b, e, h, k). h)
seq_of-Lang eps q s = (
  λ h. ([], s, refl, refl, h),
  λ (a, b, e, h, k). subst (Lang q) (sym (e ∙ ap (λ (x : Str). x ++ b) h)) k,
)
seq_of-Lang (cls p) q s = (λ h. h, λ h. h)
seq_of-Lang _ q s = (λ h. h, λ h. h)

alt_of-Lang : (r q : Regex) (s : Str) → Lang (alt_of r q) s ↔ Lang (alt r q) s
unfolding alt_of
alt_of-Lang none_of q s = (inr, elim [ inl h ↦ absurd h | inr h ↦ h ])
alt_of-Lang eps none_of s = (inl, elim [ inl h ↦ h | inr h ↦ absurd h ])
alt_of-Lang (cls p) none_of s = (inl, elim [ inl h ↦ h | inr h ↦ absurd h ])
alt_of-Lang (seq a b) none_of s = (inl, elim [ inl h ↦ h | inr h ↦ absurd h ])
alt_of-Lang (alt a b) none_of s = (inl, elim [ inl h ↦ h | inr h ↦ absurd h ])
alt_of-Lang (star a) none_of s = (inl, elim [ inl h ↦ h | inr h ↦ absurd h ])
alt_of-Lang eps _ s = (λ h. h, λ h. h)
alt_of-Lang (cls p) _ s = (λ h. h, λ h. h)
alt_of-Lang (seq a b) _ s = (λ h. h, λ h. h)
alt_of-Lang (alt a b) _ s = (λ h. h, λ h. h)
alt_of-Lang (star a) _ s = (λ h. h, λ h. h)

-- A part that begins with `c`, and the parts behind it.
Star-head :
    {P : Str → Type 0} (c : ℕ) (s : Str) {u : Str}
    → Star P u
    → u ≡ c ∷ s
    → (a : Str) × (b : Str) × (s ≡ a ++ b) × P (c ∷ a) × Star P b
Star-head c s done e = absurd (cc)
Star-head {P} c s (more {a = a} {b = b} {s = u} split h rest) e =
    elim (cons_split c s a b (sym e ∙ split)) [
      | inl (_, eb) ↦ Star-head c s rest eb
      | inr (a', ea, es) ↦ (a', b, es, subst P ea h, rest)
    ]

der→Lang : (c : ℕ) (r : Regex) (s : Str) → Lang (der c r) s → Lang r (c ∷ s)
unfolding der
der→Lang c none_of s h = h
der→Lang c eps s h = absurd h
der→Lang c (cls p) s h = elim (Bool-cases (p c)) [
  | inl e ↦ (c, ap (◌∷◌ c) (rw e at h), e)
  | inr e ↦ absurd (rw e at h)
]
der→Lang c (seq r q) s h = elim (Bool-cases (nullable r)) [
  | inl e ↦ elim ((alt_of-Lang (seq_of (der c r) q) (der c q) s).0 (rw e at h)) [
    | inl k ↦
        let (a, b, es, ha, hb) = (seq_of-Lang (der c r) q s).0 k in
        (c ∷ a, b, ap (◌∷◌ c) es, der→Lang c r a ha, hb)
    | inr k ↦ ([], c ∷ s, refl, nullable→Lang r e, der→Lang c q s k)
  ]
  | inr e ↦
      let (a, b, es, ha, hb) = (seq_of-Lang (der c r) q s).0 (rw e at h) in
      (c ∷ a, b, ap (◌∷◌ c) es, der→Lang c r a ha, hb)
]
der→Lang c (alt r q) s h = elim ((alt_of-Lang (der c r) (der c q) s).0 h) [
  | inl k ↦ inl (der→Lang c r s k)
  | inr k ↦ inr (der→Lang c q s k)
]
der→Lang c (star r) s h =
    let (a, b, es, ha, hb) = (seq_of-Lang (der c r) (star r) s).0 h in
    more {a = c ∷ a} (ap (◌∷◌ c) es) (der→Lang c r a ha) hb

Lang→der : (c : ℕ) (r : Regex) (s : Str) → Lang r (c ∷ s) → Lang (der c r) s
unfolding der
Lang→der c none_of s h = h
Lang→der c eps s h = absurd (cc)
Lang→der c (cls p) s (d, e, h) =
    let pc : p c ≡ true = subst (λ x. p x ≡ true) (ground arith) h in rw pc (ground arith)
Lang→der c (seq r q) s (a, b, e, h, k) = elim (cons_split c s a b e) [
  | inl (ea, eb) ↦ rw (Lang→nullable r a ea h) (
      (alt_of-Lang (seq_of (der c r) q) (der c q) s).1 (inr (Lang→der c q s (subst (Lang q) eb k))))
  | inr (a', ea, es) ↦
      let first : Lang (seq_of (der c r) q) s =
        (seq_of-Lang (der c r) q s).1 (a', b, es, Lang→der c r a' (subst (Lang r) ea h), k) in
      elim (Bool-cases (nullable r)) [
        | inl n ↦ rw n ((alt_of-Lang (seq_of (der c r) q) (der c q) s).1 (inl first))
        | inr n ↦ rw n first
      ]
]
Lang→der c (alt r q) s (inl h) = (alt_of-Lang (der c r) (der c q) s).1 (inl (Lang→der c r s h))
Lang→der c (alt r q) s (inr h) = (alt_of-Lang (der c r) (der c q) s).1 (inr (Lang→der c q s h))
Lang→der c (star r) s h =
    let (a, b, es, ha, hb) = Star-head c s h refl in
    (seq_of-Lang (der c r) (star r) s).1 (a, b, es, Lang→der c r a ha, hb)

pub matches→Lang : (r : Regex) (s : Str) → matches r s ≡ true → Lang r s
unfolding matches
matches→Lang r [] h = nullable→Lang r h
matches→Lang r (c ∷ s) h = der→Lang c r s (matches→Lang (der c r) s h)

pub Lang→matches : (r : Regex) (s : Str) → Lang r s → matches r s ≡ true
unfolding matches
Lang→matches r [] h = Lang→nullable r [] refl h
Lang→matches r (c ∷ s) h = Lang→matches (der c r) s (Lang→der c r s h)
