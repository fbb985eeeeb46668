-- ===== src/Cilium/Selected.antt =====
-- Which DNS names the policies of `Render` in admin/internal/cilium/cilium.go allow a workspace.
pub mod Members
pub mod Selectors
pub mod Names
use sandcastle.Prelude.{◌≡◌, ◌↔◌, Bool, true, false, none, some, Option, List, In, All, Str}
use sandcastle.Prelude.Distinct.{Unique}
use sandcastle.Policy.Rules.{Input}
use sandcastle.Cilium.Render.{Match, Cnp, match_on, exists_op, in_op, not_in_op}

-- Documented behaviour of Kubernetes label selectors, on the value of the workspace label.
pub record LabelLaws (fits : Match → Option Str → Bool) : Type 0 where
  pub in-some :
      (v : Str) (vs : List Str) → (fits (match_on in_op (some vs)) (some v) ≡ true) ↔ In v vs
  pub in-none : (vs : List Str) → fits (match_on in_op (some vs)) none ≡ false
  pub not_in-some :
      (v : Str) (vs : List Str)
      → (fits (match_on not_in_op (some vs)) (some v) ≡ true) ↔ (¬ In v vs)
  pub exists-some : (v : Str) → fits (match_on exists_op none) (some v) ≡ true
  pub exists-none : fits (match_on exists_op none) none ≡ false

-- A Go map holds each key once.
pub record IsInput (p : Input) : Type 0 where
  pub assign : Unique (λ (e : Str × Str). e.0) p.assign
  pub zone_rules : Unique (λ e. e.0) p.zone_rules
  pub grants : Unique (λ e. e.0) p.grants

-- All of a policy's expressions fit the label.
abbrev pub Chosen : (Match → Option Str → Bool) → Cnp → Option Str → Type 0
Chosen fits c label = All (λ m. fits m label ≡ true) c.spec.selector
