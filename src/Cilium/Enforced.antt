-- ===== src/Cilium/Enforced.antt =====
-- From the policy to the cluster: what a run of `Apply` of admin/internal/cilium/cilium.go on the
-- policies of `Render` lets a workspace look up.
use sandcastle.Prelude.{◌≡◌, Bool, true, Option, some, In, Str}
use sandcastle.Cilium.Render.{Match, DnsRule, Spec}
use sandcastle.Cilium.Apply.{Object, SpecEq, is_owned}
use sandcastle.Cilium.Selected.{Chosen}

-- `reflect.DeepEqual` on two specs tells whether they are equal.
pub record IsDeepEqual (spec_eq : SpecEq) : Type 0 where
  pub reflexive : (x : Spec) → spec_eq x x ≡ true
  pub sound : (x y : Spec) → spec_eq x y ≡ true → x ≡ y

-- A managed object of the cluster selects the pods of a workspace and lists the name.
pub record Resolves {S : Type 0} (view : Str → S → Option Object) (fits : Match → Option Str → Bool)
    (ws : Str) (d : DnsRule) (s : S) : Type 0 where
  pub name : Str
  pub object : Object
  pub held : view name s ≡ some object
  pub managed : is_owned object.body ≡ true
  pub chosen : Chosen fits object.body (some ws)
  pub lists : In d object.body.spec.dns
