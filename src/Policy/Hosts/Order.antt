-- ===== src/Policy/Hosts/Order.antt =====
-- `HostIPs` gives one answer, whatever the order in which Go ranges over its map.
use sandcastle.Prelude.{
  ◌≡◌, ◌≢◌, refl, sym, subst, ◌∙◌, ◌↔◌, inl, inr, true, false, List, [], ◌∷◌, Str, str_lt,
  str_lt_irrefl, str_lt_trans, str_lt_total, In, All, All-In, arith, Option-cases, Bool-cases,
}
use sandcastle.Prelude.Affix.{cut_char}
use sandcastle.Prelude.Sort.{sort, sort_unique, IsDistinct}
use sandcastle.Policy.Rules.{Input}
use sandcastle.Policy.Hosts.{
  HostKey, IpSet, keys_of, ips_at, key_eq, covered, spread, merge_key, merge, sorted, collected,
  host_ips,
}
use sandcastle.Policy.Hosts.Sets.{key_eq_iff, In-keys_of, add_all-IsDistinct, IsMap}
use sandcastle.Policy.Hosts.Merge.{Reaches, keys_of-merge, merge_sound, merge-Reaches}
use sandcastle.Policy.Hosts.Collect.{collected-IsDotted, collected-IsMap}

-- An order in which Go may range over the map: its keys, and nothing else.
abbrev pub IsRange : List HostKey → IpSet → Type 0
IsRange order s = (k : HostKey) → In k order ↔ In k (keys_of s)

sort-nil : [] ≡ sort str_lt []
unfolding sort
sort-nil = refl

pub ips_at-sorted : (k : HostKey) (s : IpSet) → ips_at k (sorted s) ≡ sort str_lt (ips_at k s)
unfolding ips_at sorted
ips_at-sorted k [] = sort-nil
ips_at-sorted k ((j, ips) ∷ s) = ground (arith, ips_at-sorted k s)

-- Where `k` is a key, its addresses are those of the keys that reach it.
pub In-merged :
    (p : Input) (order : List HostKey) (x : Str) (k : HostKey)
    → IsRange order (collected p)
    → In k (keys_of (collected p))
    → In x (ips_at k (merge order (collected p)))
      ↔ ((wk : HostKey) × Reaches wk k × In x (ips_at wk (collected p)))
In-merged p order x k range mk = (
  merge_sound (collected p) (collected-IsDotted p) order x k,
  λ (wk, r, m). merge-Reaches order (collected p) x wk k ((range wk).1 (source wk x m)) mk r m,
)
  where
    source :
        (wk : HostKey) (y : Str) → In y (ips_at wk (collected p)) → In wk (keys_of (collected p))
    source wk y m = In-keys_of y wk (collected p) m

spread-entries :
    (wk : HostKey) (suffix : Str) (wips : List Str) (s : IpSet)
    → All (λ e. IsDistinct e.1) s
    → All (λ e. IsDistinct e.1) (spread wk suffix wips s)
unfolding spread
spread-entries wk suffix wips [] h = tt
spread-entries wk suffix wips ((k, ips) ∷ s) h = elim (Bool-cases (covered wk suffix k)) [
  | inl e ↦ rw e (add_all-IsDistinct wips ips h.0, spread-entries wk suffix wips s h.1)
  | inr e ↦ rw e (h.0, spread-entries wk suffix wips s h.1)
]

merge-entries :
    (order : List HostKey) (s : IpSet)
    → All (λ e. IsDistinct e.1) s
    → All (λ e. IsDistinct e.1) (merge order s)
unfolding merge merge_key
merge-entries [] s h = h
merge-entries (wk ∷ order) s h = elim (Option-cases (cut_char b'*' wk.host)) [
  | inl e ↦ rw (e, merge_key) (merge-entries order s h)
  | inr (suffix, e) ↦
      rw (e, merge_key)
        (merge-entries order (spread wk suffix (ips_at wk s) s)
          (spread-entries wk suffix (ips_at wk s) s h))
]

-- Two maps over one list of keys, with the same addresses under each key, are sorted to one.
sorted_unique :
    (s t : IpSet)
    → keys_of s ≡ keys_of t
    → IsMap s
    → IsMap t
    → ((k : HostKey) → In k (keys_of s) → (x : Str) → In x (ips_at k s) ↔ In x (ips_at k t))
    → sorted s ≡ sorted t
unfolding sorted ips_at
sorted_unique [] [] e ds dt same = refl
sorted_unique [] (f ∷ t) e ds dt same = absurd (cc)
sorted_unique (f ∷ s) [] e ds dt same = absurd (cc)
sorted_unique ((k, ips) ∷ s) ((j, jps) ∷ t) e ds dt same =
    let kj : k ≡ j = ground arith in
    let kk : key_eq k k ≡ true = (key_eq_iff k k).1 refl in
    let jk : key_eq j k ≡ true = (key_eq_iff j k).1 (sym kj) in
    let head : sort str_lt ips ≡ sort str_lt jps =
      sort_unique str_lt str_lt_irrefl str_lt_trans str_lt_total ips jps ds.1.0 dt.1.0
        (λ x. rw (kk, jk) at (same k (inl refl) x)) in
    let rest : sorted s ≡ sorted t =
      sorted_unique s t (ground arith) (ds.0.1, ds.1.1) (dt.0.1, dt.1.1)
        (λ l m x.
          let kl : key_eq k l ≡ false = apart k l s ds.0.0 m in
          let jl : key_eq j l ≡ false = subst (λ i. key_eq i l ≡ false) kj kl in
          rw (kl, jl) at (same l (inr m) x)) in
    cc (kj, head, rest)
  where
    apart :
        (k l : HostKey) (s : IpSet)
        → All (λ i. k ≢ i) (keys_of s)
        → In l (keys_of s)
        → key_eq k l ≡ false
    apart k l s d m = elim (Bool-cases (key_eq k l)) [
      | inl e ↦ absurd (All-In (λ i. k ≢ i) l (keys_of s) d m ((key_eq_iff k l).0 e))
      | inr e ↦ e
    ]

-- For any two orders in which Go may range over the map, `host_ips` gives the same result: the same
-- keys in the same order, with equal address lists.
pub host_ips-order :
    (p : Input) (order order' : List HostKey)
    → IsRange order (collected p)
    → IsRange order' (collected p)
    → host_ips order p ≡ host_ips order' p
unfolding host_ips
host_ips-order p order order' r r' =
    sorted_unique (merge order (collected p)) (merge order' (collected p))
      (keys_of-merge order (collected p) ∙ sym (keys_of-merge order' (collected p))) (is_map order)
      (is_map order')
      (λ k m x.
        let mk = subst (In k) (keys_of-merge order (collected p)) m in
        (
          λ n. (In-merged p order' x k r' mk).1 ((In-merged p order x k r mk).0 n),
          λ n. (In-merged p order x k r mk).1 ((In-merged p order' x k r' mk).0 n),
        ))
  where
    is_map : (o : List HostKey) → IsMap (merge o (collected p))
    is_map o =
        let d = collected-IsMap p in
        (subst IsDistinct (sym (keys_of-merge o (collected p))) d.0, merge-entries o _ d.1)
