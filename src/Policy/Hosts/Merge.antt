-- ===== src/Policy/Hosts/Merge.antt =====
-- What the merging loop of `HostIPs` computes, whatever the order of its rounds.
use sandcastle.Prelude.{
  ◌≡◌, refl, sym, ap, subst, ◌∙◌, ◌⊎◌, inl, inr, true, false, List, [], ◌∷◌, Str, some, str_eq→eq,
  In, arith, Bool-cases, Option-cases,
}
use sandcastle.Prelude.Int.{int_eq_iff}
use sandcastle.Prelude.Affix.{cut_char, has_suffix, has_suffix_trans}
use sandcastle.Policy.Hosts.{
  HostKey, key_eq, IpSet, keys_of, ips_at, covered, spread, merge_key, merge,
}
use sandcastle.Policy.Hosts.Sets.{key_eq_iff, In-add_all, In-keys_of}

-- `wk` is a wildcard on `k`'s port, and `k` is another key under its suffix.
abbrev pub Covers : HostKey → HostKey → Type 0
Covers wk k = (suffix : Str) × (cut_char b'*' wk.host ≡ some suffix) × (covered wk suffix k ≡ true)

abbrev pub Reaches : HostKey → HostKey → Type 0
Reaches wk k = (wk ≡ k) ⊎ Covers wk k

-- What follows a leading star begins with a dot, as it does in every valid name.
abbrev pub IsDotted : HostKey → Type 0
IsDotted k = (suffix : Str) → cut_char b'*' k.host ≡ some suffix → (t : Str) × (suffix ≡ b'.' ∷ t)

In-spread :
    (x : Str) (k wk : HostKey) (suffix : Str) (wips : List Str) (s : IpSet)
    → In x (ips_at k (spread wk suffix wips s))
    → In x (ips_at k s) ⊎ ((covered wk suffix k ≡ true) × In x wips)
unfolding ips_at spread
In-spread x k wk suffix wips [] m = inl m
In-spread x k wk suffix wips ((j, ips) ∷ s) m = elim (Bool-cases (key_eq j k)) [
  | inl e ↦
      let jk : j ≡ k = (key_eq_iff j k).0 e in
      elim (Bool-cases (covered wk suffix j)) [
        | inl c ↦ elim ((In-add_all x wips ips).0 (rw (e, c) at m)) [
          | inl n ↦ inl (rw e n)
          | inr n ↦ inr (subst (λ l. covered wk suffix l ≡ true) jk c, n)
        ]
        | inr c ↦ inl (rw e (rw (e, c) at m))
      ]
  | inr e ↦ rw e (In-spread x k wk suffix wips s (rw e at m))
]

spread-In_old :
    (x : Str) (k wk : HostKey) (suffix : Str) (wips : List Str) (s : IpSet)
    → In x (ips_at k s)
    → In x (ips_at k (spread wk suffix wips s))
unfolding ips_at spread
spread-In_old x k wk suffix wips [] m = m
spread-In_old x k wk suffix wips ((j, ips) ∷ s) m =
    ground (arith, In-add_all x wips ips, spread-In_old x k wk suffix wips s)

spread-In_new :
    (x : Str) (k wk : HostKey) (suffix : Str) (wips : List Str) (s : IpSet)
    → In k (keys_of s)
    → covered wk suffix k ≡ true
    → In x wips
    → In x (ips_at k (spread wk suffix wips s))
unfolding ips_at spread
spread-In_new x k wk suffix wips [] mk c m = elim mk [ ]
spread-In_new x k wk suffix wips ((j, ips) ∷ s) mk c m = elim (Bool-cases (key_eq j k)) [
  | inl e ↦
      let cj : covered wk suffix j ≡ true =
        subst (λ l. covered wk suffix l ≡ true) (sym ((key_eq_iff j k).0 e)) c in
      rw (e, cj) ((In-add_all x wips ips).1 (inr m))
  | inr e ↦ elim mk [
    | inl kj ↦ absurd (cc (e, (key_eq_iff j k).1 (sym kj)))
    | inr n ↦ rw e (spread-In_new x k wk suffix wips s n c m)
  ]
]

keys_of-spread :
    (wk : HostKey) (suffix : Str) (wips : List Str) (s : IpSet)
    → keys_of (spread wk suffix wips s) ≡ keys_of s
unfolding spread
keys_of-spread wk suffix wips [] = refl
keys_of-spread wk suffix wips ((k, ips) ∷ s) = ap (◌∷◌ k) (keys_of-spread wk suffix wips s)

keys_of-merge_key : (wk : HostKey) (s : IpSet) → keys_of (merge_key wk s) ≡ keys_of s
unfolding merge_key
keys_of-merge_key wk s = elim (Option-cases (cut_char b'*' wk.host)) [
  | inl e ↦ rw (e, merge_key) refl
  | inr (suffix, e) ↦ rw (e, merge_key) (keys_of-spread wk suffix (ips_at wk s) s)
]

-- The loop adds and drops no key.
pub keys_of-merge : (order : List HostKey) (s : IpSet) → keys_of (merge order s) ≡ keys_of s
unfolding merge
keys_of-merge [] s = refl
keys_of-merge (wk ∷ order) s = keys_of-merge order (merge_key wk s) ∙ keys_of-merge_key wk s

merge_key-In_old :
    (x : Str) (k wk : HostKey) (s : IpSet) → In x (ips_at k s) → In x (ips_at k (merge_key wk s))
unfolding merge_key
merge_key-In_old x k wk s m = elim (Option-cases (cut_char b'*' wk.host)) [
  | inl e ↦ rw (e, merge_key) m
  | inr (suffix, e) ↦ rw (e, merge_key) (spread-In_old x k wk suffix (ips_at wk s) s m)
]

-- The loop takes no address away.
pub merge-In_old :
    (x : Str) (k : HostKey) (order : List HostKey) (s : IpSet)
    → In x (ips_at k s)
    → In x (ips_at k (merge order s))
unfolding merge
merge-In_old x k [] s m = m
merge-In_old x k (wk ∷ order) s m =
    merge-In_old x k order (merge_key wk s) (merge_key-In_old x k wk s m)

-- Under a wildcard that is under a wildcard: reached by the first, or the first itself.
pub star_suffix :
    (b suffix_a suffix_b : Str)
    → cut_char b'*' b ≡ some suffix_b
    → (t : Str) × (suffix_a ≡ b'.' ∷ t)
    → has_suffix b suffix_a ≡ true
    → has_suffix suffix_b suffix_a ≡ true
unfolding cut_char has_suffix
star_suffix [] sa sb e d h = absurd (cc)
star_suffix (c ∷ b) sa sb e (t, dot) h = ground (arith, str_eq→eq (c ∷ b) sa)

pub covered_parts :
    (wk : HostKey) (suffix : Str) (k : HostKey)
    → covered wk suffix k ≡ true
    → (k.port ≡ wk.port) × (has_suffix k.host suffix ≡ true)
unfolding covered
covered_parts wk suffix k h = ground (arith, int_eq_iff k.port wk.port)

pub covered_intro :
    (wk : HostKey) (suffix : Str) (k : HostKey)
    → key_eq k wk ≡ false
    → k.port ≡ wk.port
    → has_suffix k.host suffix ≡ true
    → covered wk suffix k ≡ true
unfolding covered
covered_intro wk suffix k n p h = ground (arith, int_eq_iff k.port wk.port)

pub Reaches-trans : (a b c : HostKey) → IsDotted a → Reaches a b → Covers b c → Reaches a c
Reaches-trans a b c d (inl e) h = inr (subst (λ x. Covers x c) (sym e) h)
Reaches-trans a b c d (inr (sa, ea, ha)) (sb, eb, hb) = elim (Bool-cases (key_eq c a)) [
  | inl e ↦ inl (sym ((key_eq_iff c a).0 e))
  | inr e ↦
      let (pa, fa) = covered_parts a sa b ha in
      let (pb, fb) = covered_parts b sb c hb in
      inr (
        sa,
        ea,
        covered_intro a sa c e (pb ∙ pa)
            (has_suffix_trans c.host sb sa fb (star_suffix b.host sa sb eb (d sa ea) fa)),
      )
]

module _ (start : IpSet) (dotted : (k : HostKey) → In k (keys_of start) → IsDotted k) where
  -- Every address came from a key that reaches the one it stands at.
  abbrev IsSound : IpSet → Type 0
  IsSound s =
      (x : Str) (k : HostKey)
      → In x (ips_at k s)
      → (wk : HostKey) × Reaches wk k × In x (ips_at wk start)

  merge_key-IsSound : (wk : HostKey) (s : IpSet) → IsSound s → IsSound (merge_key wk s)
  unfolding merge_key
  merge_key-IsSound wk s h = elim (Option-cases (cut_char b'*' wk.host)) [
    | inl e ↦ rw (e, merge_key) h
    | inr (suffix, e) ↦
        rw (e, merge_key)
          (λ x k m. elim (In-spread x k wk suffix (ips_at wk s) s m) [
            | inl n ↦ h x k n
            | inr (c, n) ↦
                let (w, r, q) = h x wk n in
                (w, Reaches-trans w wk k (dotted w (In-keys_of x w start q)) r (suffix, e, c), q)
          ])
  ]

  merge-IsSound : (order : List HostKey) (s : IpSet) → IsSound s → IsSound (merge order s)
  unfolding merge
  merge-IsSound [] s h = h
  merge-IsSound (wk ∷ order) s h = merge-IsSound order (merge_key wk s) (merge_key-IsSound wk s h)

  pub merge_sound :
      (order : List HostKey) (x : Str) (k : HostKey)
      → In x (ips_at k (merge order start))
      → (wk : HostKey) × Reaches wk k × In x (ips_at wk start)
  merge_sound order = merge-IsSound order start (λ x k m. (k, inl refl, m))

-- Once its round is over, a key has given its addresses to all that it covers.
merge_complete :
    (order : List HostKey) (s : IpSet) (x : Str) (wk k : HostKey)
    → In wk order
    → In k (keys_of s)
    → Covers wk k
    → In x (ips_at wk s)
    → In x (ips_at k (merge order s))
unfolding merge
merge_complete [] s x wk k mw mk c m = elim mw [ ]
merge_complete (w ∷ order) s x wk k (inl e) mk (suffix, cut, c) m =
    merge-In_old x k order (merge_key w s) (
      rw (← e) (
        unfold merge_key in
        (rw (cut, merge_key) (spread-In_new x k wk suffix (ips_at wk s) s mk c m))))
merge_complete (w ∷ order) s x wk k (inr n) mk c m =
    merge_complete order (merge_key w s) x wk k n (rw (keys_of-merge_key w s) mk) c
      (merge_key-In_old x wk w s m)

pub merge-Reaches :
    (order : List HostKey) (s : IpSet) (x : Str) (wk k : HostKey)
    → In wk order
    → In k (keys_of s)
    → Reaches wk k
    → In x (ips_at wk s)
    → In x (ips_at k (merge order s))
merge-Reaches order s x wk k mw mk (inl e) m =
    merge-In_old x k order s (subst (λ l. In x (ips_at l s)) e m)
merge-Reaches order s x wk k mw mk (inr c) m = merge_complete order s x wk k mw mk c m
