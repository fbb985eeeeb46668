-- ===== src/Cilium/Named.antt =====
-- The DNS names that `dnsRules` of admin/internal/cilium/cilium.go makes of rules.
use sandcastle.Prelude.{
  ◌≡◌, ◌≢◌, ◌↔◌, ◌⊎◌, inl, inr, refl, subst, true, List, [], ◌∷◌, Str, codes, str_eq, In,
  Bool-cases, ==_iff, arith, if◌then◌else◌,
}
use sandcastle.Prelude.Affix.{has_prefix}
use sandcastle.Policy.Rules.{Rule, dns_kind, valid_rule, usable}
use sandcastle.Policy.Valid.{IsDnsRule, usable-IsDnsRule}
use sandcastle.Cilium.Render.{DnsRule, match_pattern, match_name, dns_rules}

-- A rule's value stands for the names under it where it starts with "*.", and else for itself.
abbrev pub StandsFor : Str → DnsRule → Type 0
StandsFor v d =
    ((t : Str) × (v ≡ b'*' ∷ b'.' ∷ t) × (d ≡ match_pattern v))
    ⊎ (((t : Str) → v ≢ b'*' ∷ b'.' ∷ t) × (d ≡ match_name v))

-- One of the rules is a valid DNS rule and makes the name.
pub record Makes (rules : List Rule) (d : DnsRule) : Type 0 where
  pub rule : Rule
  pub among : In rule rules
  pub valid : IsDnsRule rule
  pub made : StandsFor rule.value d

wildcard : (s : Str) → (has_prefix s (codes "*.") ≡ true) ↔ ((t : Str) × (s ≡ b'*' ∷ b'.' ∷ t))
unfolding has_prefix codes
wildcard [] = (λ h. absurd (cc), λ (t, e). absurd (cc))
wildcard (c ∷ []) = (λ h. ground arith, λ (t, e). absurd (cc))
wildcard (c ∷ d ∷ s) = (
  λ h.
      let k = (==_iff c b'*').0 (ground arith) in
      let l = (==_iff d b'.').0 (ground arith) in (s, cc),
  λ (t, e). ground arith,
)

made_of : Rule → DnsRule
made_of r = if has_prefix r.value (codes "*.") then match_pattern r.value else match_name r.value

made_of-StandsFor : (r : Rule) (d : DnsRule) → (d ≡ made_of r) ↔ StandsFor r.value d
unfolding made_of
made_of-StandsFor r d = elim (Bool-cases (has_prefix r.value (codes "*."))) [
  | inl e ↦
      let (t, q) = (wildcard r.value).0 e in
      rw e (λ h. inl (t, q, h), λ s. elim s [ inl (u, f, g) ↦ g | inr (n, g) ↦ absurd (n t q) ])
  | inr e ↦ rw e (
    λ h. inr (λ t q. let k = (wildcard r.value).1 (t, q) in absurd (cc), h),
    λ s. elim s [
      | inl (t, q, g) ↦ absurd (let k = (wildcard r.value).1 (t, q) in cc)
      | inr (n, g) ↦ g
    ],
  )
]

dns_rules-cons :
    (r : Rule) (rules : List Rule)
    → dns_rules (r ∷ rules)
      ≡ (if usable dns_kind r then made_of r ∷ dns_rules rules else dns_rules rules)
unfolding dns_rules usable made_of
dns_rules-cons r rules = elim (Bool-cases (str_eq r.kind dns_kind)) [
  | inr e ↦ rw e refl
  | inl e ↦ elim (Bool-cases (valid_rule r)) [ inl f ↦ rw (e, f) refl | inr f ↦ rw (e, f) refl ]
]

-- The names made are exactly those of the valid DNS rules.
pub dns_rules-Makes : (d : DnsRule) (rules : List Rule) → In d (dns_rules rules) ↔ Makes rules d
dns_rules-Makes d [] = (λ m. absurd (unfold dns_rules in m), λ k. absurd k.among)
dns_rules-Makes d (r ∷ rules) =
    let rest = dns_rules-Makes d rules in
    let later : Makes rules d → Makes (r ∷ rules) d =
      λ k. record { rule = k.rule; among = inr k.among; valid = k.valid; made = k.made } in
    elim (Bool-cases (usable dns_kind r)) [
      | inr e ↦
          rw (dns_rules-cons r rules, e)
            (
              λ m. later (rest.0 m),
              λ k. elim k.among [
                | inl q ↦ absurd (let v = (usable-IsDnsRule r).1 (subst IsDnsRule q k.valid) in cc)
                | inr m ↦
                    rest.1 (record { rule = k.rule; among = m; valid = k.valid; made = k.made })
              ],
            )
      | inl e ↦
          rw (dns_rules-cons r rules, e)
            (
              λ m. elim m [
                | inl q ↦ record {
                  rule = r;
                  among = inl refl;
                  valid = (usable-IsDnsRule r).0 e;
                  made = (made_of-StandsFor r d).0 q;
                }
                | inr n ↦ later (rest.0 n)
              ],
              λ k. elim k.among [
                | inl q ↦
                    inl (
                      (made_of-StandsFor r d).1
                        (subst (λ (x : Rule). StandsFor x.value d) q k.made))
                | inr m ↦
                    inr
                      (rest.1 (record { rule = k.rule; among = m; valid = k.valid; made = k.made }))
              ],
            )
    ]
