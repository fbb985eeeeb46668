-- ===== src/Policy/Hosts/Access.antt =====
-- What the result of `HostIPs` means at the gate: Envoy takes the most specific domain that matches
-- a request's host, and admits the addresses listed there.
use sandcastle.Prelude.{
  ℕ, ◌≤◌, ◌<◌, ◌≡◌, ◌≢◌, refl, sym, ap, subst, ◌∙◌, ◌↔◌, ◌⊎◌, inl, inr, true, false, List, [], ◌∷◌,
  Str, str_lt, In, arith, Bool-cases, some, length, str_eq→eq,
}
use sandcastle.Prelude.Int.{ℤ}
use sandcastle.Prelude.Affix.{
  cut_char, has_suffix, has_suffix_trans, has_suffix_nested, length-suffix-le,
}
use sandcastle.Prelude.Sort.{In-sort}
use sandcastle.Policy.Name.{valid_name}
use sandcastle.Policy.Name.Grammar.{valid_name-ne_dot}
use sandcastle.Policy.Rules.{Rule, Workspace, Input, host_kind, effective}
use sandcastle.Policy.Hosts.{HostKey, keys_of, ips_at, key_eq, rule_key, merge, collected, host_ips}
use sandcastle.Policy.Hosts.Sets.{key_eq_iff, In-keys_of}
use sandcastle.Policy.Hosts.Merge.{Reaches, star_suffix, covered_parts, covered_intro}
use sandcastle.Policy.Hosts.Collect.{In-collected, collected-valid, collected-IsDotted}
use sandcastle.Policy.Hosts.Order.{IsRange, ips_at-sorted, In-merged}

-- A domain matches a host: it is the host, or "*" before a suffix of it that is shorter.
abbrev pub HostMatches : Str → Str → Type 0
HostMatches pattern host =
    (pattern ≡ host)
    ⊎ ((suffix : Str) × (cut_char b'*' pattern ≡ some suffix)
        × (has_suffix host suffix ≡ true)
        × (length suffix < length host))

-- `k` is the most specific of the keys on the port that match the host: the host itself, or the
-- longest wildcard, where no key is the host itself.
pub record Selects (keys : List HostKey) (host : Str) (port : ℤ) (k : HostKey) : Type 0 where
  pub is_key : In k keys
  pub on_port : k.port ≡ port
  pub fits : HostMatches k.host host
  pub best :
      (k.host ≡ host)
      ⊎ ((j : HostKey)
          → In j keys
          → j.port ≡ port
          → HostMatches j.host host
          → (j.host ≢ host) × (length j.host ≤ length k.host))

-- A running pod with the address has a host rule that matches the host and port.
pub record Permits (p : Input) (x host : Str) (port : ℤ) : Type 0 where
  pub pod : Workspace
  pub running : In pod p.pods
  pub address : pod.ip ≡ x
  pub has_ip : pod.ip ≢ []
  pub rule : Rule
  pub granted : In rule (effective p pod.id host_kind)
  pub same_port : rule.port ≡ port
  pub fits : HostMatches rule.value host

cut_char-eq : (d : ℕ) (s t : Str) → cut_char d s ≡ some t → s ≡ d ∷ t
unfolding cut_char
cut_char-eq d [] t e = absurd (cc)
cut_char-eq d (c ∷ s) t e = ground arith

key-eq : (j k : HostKey) → j.host ≡ k.host → j.port ≡ k.port → j ≡ k
key-eq j k e f = ground arith

-- A proper suffix: a valid name is longer than the dotted suffix at its end.
shorter :
    (host suffix : Str)
    → valid_name host ≡ true
    → has_suffix host suffix ≡ true
    → (t : Str) × (suffix ≡ b'.' ∷ t)
    → length suffix < length host
unfolding has_suffix
shorter [] suffix v h (t, e) = absurd (cc (str_eq→eq [] suffix h))
shorter (c ∷ s) suffix v h (t, e) = elim (Bool-cases (has_suffix s suffix)) [
  | inl f ↦ omega (arith, length-suffix-le s suffix f)
  | inr f ↦ absurd (valid_name-ne_dot (c ∷ s) t v (whole f ∙ e))
]
  where
    whole : has_suffix s suffix ≡ false → c ∷ s ≡ suffix
    whole f = str_eq→eq (c ∷ s) suffix (ground arith)

module _ (p : Input) (host : Str) (port : ℤ) (k : HostKey) where
  abbrev Chosen : Type 0
  Chosen = Selects (keys_of (collected p)) host port k

  -- A key that reaches the chosen one matches the host.
  Reaches-matches :
      (wk : HostKey)
      → In wk (keys_of (collected p))
      → Reaches wk k
      → Chosen
      → (wk.port ≡ port) × HostMatches wk.host host
  Reaches-matches wk mw (inl e) c = (
    ap (λ (j : HostKey). j.port) e ∙ c.on_port,
    subst (λ s. HostMatches s host) (sym (ap (λ (j : HostKey). j.host) e)) c.fits,
  )
  Reaches-matches wk mw (inr (suffix, cut, cov)) c =
      let (pk, hs) = covered_parts wk suffix k cov in
      let dot = collected-IsDotted p wk mw suffix cut in
      (
        sym pk ∙ c.on_port,
        elim c.fits [
          | inl e ↦ inr (
            suffix,
            cut,
            subst (λ s. has_suffix s suffix ≡ true) e hs,
            subst (λ s. length suffix < length s) e
                (shorter k.host suffix (collected-valid p k c.is_key) hs dot),
          )
          | inr (sk, cut_k, hk, lk) ↦
              let inner : has_suffix sk suffix ≡ true = star_suffix k.host suffix sk cut_k dot hs in
              inr (
                suffix,
                cut,
                has_suffix_trans host sk suffix hk inner,
                omega (arith, length-suffix-le sk suffix inner),
              )
        ],
      )

  covers_or_is :
      (j : HostKey) (suffix : Str)
      → j.port ≡ port
      → Chosen
      → cut_char b'*' j.host ≡ some suffix
      → has_suffix k.host suffix ≡ true
      → Reaches j k
  covers_or_is j suffix pj c cut h = elim (Bool-cases (key_eq k j)) [
    | inl e ↦ inl (sym ((key_eq_iff k j).0 e))
    | inr e ↦ inr (suffix, cut, covered_intro j suffix k e (c.on_port ∙ sym pj) h)
  ]

  -- A key that matches the host reaches the chosen one.
  matches-Reaches :
      (j : HostKey)
      → In j (keys_of (collected p))
      → j.port ≡ port
      → HostMatches j.host host
      → Chosen
      → Reaches j k
  matches-Reaches j mj pj fj c = elim c.best [
    | inl e ↦ elim fj [
      | inl f ↦ inl (key-eq j k (f ∙ sym e) (pj ∙ sym c.on_port))
      | inr (s, cut, h, l) ↦
          covers_or_is j s pj c cut (subst (λ x. has_suffix x s ≡ true) (sym e) h)
    ]
    | inr best ↦ elim fj [
      | inl f ↦ absurd ((best j mj pj (inl f)).0 f)
      | inr (s, cut, h, l) ↦ elim c.fits [
        | inl f ↦ absurd ((best k c.is_key c.on_port c.fits).0 f)
        | inr (sk, cut_k, hk, lk) ↦ covers_or_is j s pj c cut (
            under_star s sk (cut_char-eq b'*' k.host sk cut_k) (
              has_suffix_nested host sk s hk h (
                omega (
                  arith,
                  (best j mj pj (inr (s, cut, h, l))).1,
                  ap length (cut_char-eq b'*' k.host sk cut_k),
                  ap length (cut_char-eq b'*' j.host s cut),
                ))))
      ]
    ]
  ]
    where
      under_star :
          (s sk : Str) → k.host ≡ b'*' ∷ sk → has_suffix sk s ≡ true → has_suffix k.host s ≡ true
      under_star s sk e h =
          subst (λ x. has_suffix x s ≡ true) (sym e) (unfold has_suffix in ground arith)

-- At the key that Envoy selects for a request, an address is listed exactly when a running pod with
-- that address has an effective host rule that matches the request's host and port: the merge makes
-- up for Envoy reading one entry only, and gives nobody more than their own rules do.
pub host_ips-Permits :
    (p : Input) (order : List HostKey) (host : Str) (port : ℤ) (k : HostKey) (x : Str)
    → IsRange order (collected p)
    → Selects (keys_of (collected p)) host port k
    → In x (ips_at k (host_ips order p)) ↔ Permits p x host port
unfolding host_ips
host_ips-Permits p order host port k x range c = (
  λ m.
      let n =
        (In-sort str_lt x (ips_at k (merge order (collected p)))).0
          (subst (In x) (ips_at-sorted k (merge order (collected p))) m) in
      let (wk, r, q) = (In-merged p order x k range c.is_key).0 n in
      let h = (In-collected p x wk).0 q in
      let (pw, fw) = Reaches-matches p host port k wk (In-keys_of x wk (collected p) q) r c in
      record {
        pod = h.pod;
        running = h.running;
        address = h.address;
        has_ip = h.has_ip;
        rule = h.rule;
        granted = h.granted;
        same_port = ap (λ (j : HostKey). j.port) h.at_key ∙ pw;
        fits = subst (λ s. HostMatches s host) (sym (ap (λ (j : HostKey). j.host) h.at_key)) fw;
      },
  λ h.
      let q = (In-collected p x (rule_key h.rule)).1 (record {
        pod = h.pod;
        running = h.running;
        address = h.address;
        has_ip = h.has_ip;
        rule = h.rule;
        granted = h.granted;
        at_key = refl;
      }) in
      let r =
        matches-Reaches p host port k (rule_key h.rule)
          (In-keys_of x (rule_key h.rule) (collected p) q) h.same_port h.fits c in
      subst (In x) (sym (ips_at-sorted k (merge order (collected p)))) (
        (In-sort str_lt x (ips_at k (merge order (collected p)))).1
          ((In-merged p order x k range c.is_key).1 (rule_key h.rule, r, q))),
)
