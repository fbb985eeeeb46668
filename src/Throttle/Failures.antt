-- ===== src/Throttle/Failures.antt =====
-- How `reconcile` of admin/cmd/sandcastle-admin/main.go audits failures.
use sandcastle.Prelude.{
  ◌&&◌, ◌≡◌, ◌≢◌, refl, inl, inr, Bool, true, not, List, [], ◌∷◌, ◌++◌, Str, str_eq, str_eq_refl,
  Bool-cases, if◌then◌else◌,
}

-- One run of `reconcile`: `msg`, empty where apply returned nil, and whether AuditSystem writes its
-- row, were it called.
pub record ReconcileRun : Type 0 where
  pub msg : Str
  pub writes : Bool

-- The audit row of action "reconcile_error" of a run that failed; an error of AuditSystem is logged.
unfoldable pub reconcile_row : Str → ReconcileRun → List Str
reconcile_row last_err run =
    if not (str_eq run.msg []) && not (str_eq run.msg last_err)
    then (if run.writes then run.msg ∷ [] else [])
    else []

-- The run's audit rows, and lastErr = msg, which follows whether or not the row was written.
unfoldable pub reconcile_audit : Str → ReconcileRun → List Str × Str
unfolding reconcile_row
reconcile_audit last_err run = (reconcile_row last_err run, run.msg)

-- The audited messages of a sequence of runs.
unfoldable pub reconciles : Str → List ReconcileRun → List Str
reconciles last_err [] = []
reconciles last_err (run ∷ runs) =
    (reconcile_audit last_err run).0 ++ reconciles (reconcile_audit last_err run).1 runs

-- A failure that repeats from one run to the next is audited once where its row is written: the
-- repetition adds nothing.
pub reconciles_repeat :
    (last_err : Str) (run again : ReconcileRun) (runs : List ReconcileRun)
    → again.msg ≡ run.msg
    → reconciles last_err (run ∷ again ∷ runs) ≡ reconciles last_err (run ∷ runs)
unfolding reconciles reconcile_audit reconcile_row
reconciles_repeat last_err run again runs e =
    rw (e, str_eq_refl run.msg)
      (elim (Bool-cases (str_eq run.msg [])) [ inl f ↦ rw f refl | inr f ↦ rw f refl ])

-- The message of the run before, or what lastErr was at first.
abbrev pub message_before : Str → List ReconcileRun → Str
message_before last_err [] = last_err
message_before last_err (run ∷ runs) = message_before run.msg runs

-- A run that failed with the message, otherwise than the run before it, and whose row was written.
pub record Audited (last_err : Str) (runs : List ReconcileRun) (msg : Str) : Type 0 where
  pub before : List ReconcileRun
  pub run : ReconcileRun
  pub after : List ReconcileRun
  pub among : runs ≡ before ++ run ∷ after
  pub said : run.msg ≡ msg
  pub failed : msg ≢ []
  pub is_new : msg ≢ message_before last_err before
  pub written : run.writes ≡ true
