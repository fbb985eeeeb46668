-- ===== src/Throttle/Examples.antt =====
-- The theorems on the throttle and on audited failures at concrete inputs.
use sandcastle.Prelude.{true, List, str_eq, ◌≡◌, refl, false, [], ◌∷◌, codes, arith}
use sandcastle.Prelude.Assoc.{get}
use sandcastle.Throttle.{allow, is_recent, allow_again}
use sandcastle.Throttle.Failures.{ReconcileRun, reconciles, reconcile_row, reconcile_audit}

allow_again_example :
    allow (codes "w|h|443") 8 (allow (codes "w|h|443") 7 []).1
    ≡ (false, (allow (codes "w|h|443") 7 []).1)
unfolding allow is_recent get
allow_again_example = allow_again (codes "w|h|443") 7 8 [] refl (omega arith)

-- A failure whose row is not written and that repeats, a success, and the failure again.
abbrev runs : List ReconcileRun
runs =
    (record { msg = codes "push"; writes = false })
    ∷ (record { msg = codes "push"; writes = true })
    ∷ (record { msg = []; writes = true })
    ∷ (record { msg = codes "push"; writes = true })
    ∷ []

runs_audited : reconciles [] runs ≡ codes "push" ∷ []
unfolding reconciles reconcile_audit reconcile_row codes str_eq
runs_audited = refl
