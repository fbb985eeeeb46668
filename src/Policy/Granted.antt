-- ===== src/Policy/Granted.antt =====
-- The members of `Effective` of admin/internal/policy/policy.go.
use sandcastle.Prelude.{
  ◌≡◌, ◌⊎◌, ◌↔◌, inl, inr, true, Str, In, In-append, In-append_left, In-append_right, In-keep,
  keep-In, keep,
}
use sandcastle.Policy.Rules.{Rule, Input, rules_at, zone_of, usable, effective}

pub In-effective :
    (p : Input) (ws kind : Str) (r : Rule)
    → In r (effective p ws kind) ↔ (
        (usable kind r ≡ true)
        × (In r (rules_at (zone_of p ws) p.zone_rules) ⊎ In r (rules_at ws p.grants)))
unfolding effective
In-effective p ws kind r =
    let zone = keep (usable kind) (rules_at (zone_of p ws) p.zone_rules) in
    let own = keep (usable kind) (rules_at ws p.grants) in
    (
      λ m. elim (In-append r zone own m) [
        | inl n ↦ let (a, b) = In-keep (usable kind) r _ n in (b, inl a)
        | inr n ↦ let (a, b) = In-keep (usable kind) r _ n in (b, inr a)
      ],
      λ (u, o). elim o [
        | inl n ↦ In-append_left r zone own (keep-In (usable kind) r _ n u)
        | inr n ↦ In-append_right r zone own (keep-In (usable kind) r _ n u)
      ],
    )
