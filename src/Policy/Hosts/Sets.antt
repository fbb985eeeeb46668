-- ===== src/Policy/Hosts/Sets.antt =====
-- The members of the inner and outer maps after each write of `HostIPs`.
use sandcastle.Prelude.{
  ◌≡◌, ◌≢◌, sym, ◌↔◌, ◌⊎◌, inl, inr, true, false, List, [], ◌∷◌, ◌++◌, Str, str_eq, str_eq_iff,
  str_eq→eq, arith, any, In, In-append, In-append_left, In-append_right, In-of-any, any_of-In,
  Bool-cases, All, str_eq_refl, In-All, All-In,
}
use sandcastle.Prelude.Int.{int_eq_iff}
use sandcastle.Prelude.Sort.{IsDistinct}
use sandcastle.Policy.Hosts.{HostKey, key_eq, IpSet, keys_of, ips_at, add_member, add_ip, add_all}

pub key_eq_iff : (k l : HostKey) → (key_eq k l ≡ true) ↔ (k ≡ l)
unfolding key_eq
key_eq_iff k l = (
  λ h. ground (arith, str_eq_iff k.host l.host, int_eq_iff k.port l.port),
  λ e. ground (arith, str_eq_iff k.host l.host, int_eq_iff k.port l.port),
)

pub In-add_member : (x ip : Str) (ips : List Str) → In x (add_member ip ips) ↔ (In x ips ⊎ (x ≡ ip))
unfolding add_member
In-add_member x ip ips = elim (Bool-cases (any (str_eq ip) ips)) [
  | inl e ↦ rw e (
    inl,
    λ h. elim h [
      | inl m ↦ m
      | inr k ↦ let (y, m, q) = In-of-any (str_eq ip) ips e in rw k (rw (str_eq→eq ip y q) m)
    ],
  )
  | inr e ↦ rw e (
    λ h. elim (In-append x ips (ip ∷ []) h) [
      | inl m ↦ inl m
      | inr n ↦ elim n [ inl k ↦ inr k | inr f ↦ absurd f ]
    ],
    λ h. elim h [
      | inl m ↦ In-append_left x ips (ip ∷ []) m
      | inr k ↦ In-append_right x ips (ip ∷ []) (inl k)
    ],
  )
]

pub In-add_all : (x : Str) (wips ips : List Str) → In x (add_all wips ips) ↔ (In x ips ⊎ In x wips)
unfolding add_all
In-add_all x [] ips = (inl, elim [ inl m ↦ m | inr f ↦ absurd f ])
In-add_all x (ip ∷ wips) ips = (
  λ h. elim ((In-add_all x wips (add_member ip ips)).0 h) [
    | inl m ↦ elim ((In-add_member x ip ips).0 m) [ inl n ↦ inl n | inr e ↦ inr (inl e) ]
    | inr n ↦ inr (inr n)
  ],
  λ h. (In-add_all x wips (add_member ip ips)).1 (elim h [
    | inl m ↦ inl ((In-add_member x ip ips).1 (inl m))
    | inr n ↦ elim n [ inl e ↦ inl ((In-add_member x ip ips).1 (inr e)) | inr k ↦ inr k ]
  ]),
)

-- A write at one key adds its address there and nowhere else.
pub In-add_ip :
    (x : Str) (j k : HostKey) (ip : Str) (s : IpSet)
    → In x (ips_at j (add_ip k ip s)) ↔ (In x (ips_at j s) ⊎ ((j ≡ k) × (x ≡ ip)))
unfolding ips_at add_ip
In-add_ip x j k ip [] = (λ h. ground (arith, key_eq_iff k j), λ h. ground (arith, key_eq_iff k j))
In-add_ip x j k ip ((i, ips) ∷ s) = (
  λ h. ground (arith, key_eq_iff i k, key_eq_iff i j, In-add_ip x j k ip s, In-add_member x ip ips),
  λ h. ground (arith, key_eq_iff i k, key_eq_iff i j, In-add_ip x j k ip s, In-add_member x ip ips),
)

-- A key with an address is in the map.
pub In-keys_of : (x : Str) (k : HostKey) (s : IpSet) → In x (ips_at k s) → In k (keys_of s)
unfolding ips_at
In-keys_of x k [] m = m
In-keys_of x k ((j, ips) ∷ s) m = ground (arith, key_eq_iff j k, In-keys_of x k s)

-- No key twice, and no address twice under a key.
abbrev pub IsMap : IpSet → Type 0
IsMap s = IsDistinct (keys_of s) × All (λ e. IsDistinct e.1) s

IsDistinct-snoc : (x : Str) (xs : List Str) → IsDistinct xs → ¬ In x xs → IsDistinct (xs ++ x ∷ [])
IsDistinct-snoc x [] d n = (tt, tt)
IsDistinct-snoc x (y ∷ ys) d n = (apart ys d.0, IsDistinct-snoc x ys d.1 (λ m. n (inr m)))
  where
    apart : (zs : List Str) → All (λ z. y ≢ z) zs → All (λ z. y ≢ z) (zs ++ x ∷ [])
    apart [] h = (λ e. n (inl (sym e)), tt)
    apart (z ∷ zs) h = (h.0, apart zs h.1)

pub add_member-IsDistinct :
    (ip : Str) (ips : List Str) → IsDistinct ips → IsDistinct (add_member ip ips)
unfolding add_member
add_member-IsDistinct ip ips d = elim (Bool-cases (any (str_eq ip) ips)) [
  | inl e ↦ rw e d
  | inr e ↦
      rw e (IsDistinct-snoc ip ips d (λ m. cc (any_of-In (str_eq ip) ip ips m (str_eq_refl ip), e)))
]

pub add_all-IsDistinct : (wips ips : List Str) → IsDistinct ips → IsDistinct (add_all wips ips)
unfolding add_all
add_all-IsDistinct [] ips d = d
add_all-IsDistinct (ip ∷ wips) ips d =
    add_all-IsDistinct wips (add_member ip ips) (add_member-IsDistinct ip ips d)

pub In-keys_of-add_ip :
    (j k : HostKey) (ip : Str) (s : IpSet)
    → In j (keys_of (add_ip k ip s))
    → In j (keys_of s) ⊎ (j ≡ k)
unfolding add_ip
In-keys_of-add_ip j k ip [] m = ground arith
In-keys_of-add_ip j k ip ((i, ips) ∷ s) m = ground (arith, In-keys_of-add_ip j k ip s)

pub add_ip-IsMap : (k : HostKey) (ip : Str) (s : IpSet) → IsMap s → IsMap (add_ip k ip s)
unfolding add_ip
add_ip-IsMap k ip [] h = ((tt, tt), ((tt, tt), tt))
add_ip-IsMap k ip ((i, ips) ∷ s) h = elim (Bool-cases (key_eq i k)) [
  | inl e ↦ rw e (h.0, (add_member-IsDistinct ip ips h.1.0, h.1.1))
  | inr e ↦
      let rest : IsMap (add_ip k ip s) = add_ip-IsMap k ip s (h.0.1, h.1.1) in
      rw e ((fresh e, rest.0), (h.1.0, rest.1))
]
  where
    fresh : key_eq i k ≡ false → All (λ j. i ≢ j) (keys_of (add_ip k ip s))
    fresh e =
        In-All (λ j. i ≢ j) _
          (λ j m ij. elim (In-keys_of-add_ip j k ip s m) [
            | inl n ↦ apart j n ij
            | inr jk ↦ ground (arith, key_eq_iff i k)
          ])
      where
        apart : (j : HostKey) → In j (keys_of s) → i ≡ j → ⊥
        apart j n ij = All-In (λ l. i ≢ l) j (keys_of s) h.0.0 n ij
