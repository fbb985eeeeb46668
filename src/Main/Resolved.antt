-- ===== src/Main/Resolved.antt =====
-- From the tables to the cluster's DNS policies: what a run of `apply` of
-- admin/cmd/sandcastle-admin/main.go lets a workspace look up.
use sandcastle.Prelude.{◌≡◌, []}
use sandcastle.Policy.Rules.{Input}
use sandcastle.Cilium.Render.{render}
use sandcastle.Cilium.Apply
use sandcastle.Store.Db.{Db}
use sandcastle.Xds.Server.{XdsServer}
use sandcastle.Main.Reconcile.{World, Applied, applied, apply}

module _ {M S C : Type 0} (w : World M S C) where
  -- A run that succeeds has applied the rendered policies to Cilium without an error.
  abbrev ToCilium : Input → C → Applied × (XdsServer S × C) → Type 0
  ToCilium p c (r, (x, c')) =
      r ≡ applied
      → ((Apply.apply w.api w.spec_eq (render p) c).0 ≡ [])
        × (c' ≡ (Apply.apply w.api w.spec_eq (render p) c).1)
