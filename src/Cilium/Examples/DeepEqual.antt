-- ===== src/Cilium/Examples/DeepEqual.antt =====
-- A decision of the equality of two specs, for the theorems on `Apply`.
use native.Mathlib.Decide.{ℕ_discrete}
use sandcastle.Prelude.{◌≡◌, refl, Bool, true, false}
use sandcastle.Cilium.Render.{Match, DnsRule, Spec}
use sandcastle.Cilium.Apply.{SpecEq}
use sandcastle.Cilium.Enforced.{IsDeepEqual}

Match-discrete : Discrete Match
Match-discrete = hlevel (ℕ_discrete)

DnsRule-discrete : Discrete DnsRule
DnsRule-discrete = hlevel (ℕ_discrete)

Spec-discrete : Discrete Spec
Spec-discrete = hlevel (ℕ_discrete, Match-discrete, DnsRule-discrete)

abbrev as_bool : {A : Type 0} → Dec A → Bool
as_bool (yes p) = true
as_bool (no n) = false

pub deep_equal : SpecEq
deep_equal x y = as_bool (Spec-discrete x y)

pub deep_equal-IsDeepEqual : IsDeepEqual deep_equal
unfolding deep_equal
deep_equal-IsDeepEqual = record {
  reflexive = λ x. holds x x refl (Spec-discrete x x);
  sound = λ x y. tells x y (Spec-discrete x y);
}
  where
    holds : (x y : Spec) → x ≡ y → (d : Dec (x ≡ y)) → as_bool d ≡ true
    holds x y e (yes p) = refl
    holds x y e (no n) = absurd (n e)

    tells : (x y : Spec) (d : Dec (x ≡ y)) → as_bool d ≡ true → x ≡ y
    tells x y (yes p) h = p
    tells x y (no n) h = absurd (cc)
