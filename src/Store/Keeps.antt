-- ===== src/Store/Keeps.antt =====
-- Predicates on the database that a transaction keeps, one rule for each way to build one.
use sandcastle.Prelude.{◌≡◌, refl, Bool, true, false, Option, none, some, Str, if◌then◌else◌}
use sandcastle.Store.Db.{Env, Db, TxError, pg, invalid_text}
use sandcastle.Store.Tx.{
  Tx, Outcome, done, fail, pure, throw, guard, or_fail, ◌>>=◌, ◌>>◌, run_tx, settle, as_uuid,
}

-- A transaction that fails leaves no database behind.
abbrev pub After {ℓ} : {A : Type ℓ} → (Db → Type 0) → Outcome A → Type 0
After P (done a db) = P db
After P (fail e) = Unit

pub record Keeps {ℓ} {A : Type ℓ} (P : Db → Type 0) (m : Tx A) : Type ℓ where
  pub at : (db : Db) → P db → After P (m db)

module _ {P : Db → Type 0} where
  pub Keeps-pure {ℓ} : {A : Type ℓ} (a : A) → Keeps P (pure a)
  unfolding ◌>>=◌
  Keeps-pure a = record { at = λ db h. h }

  pub Keeps-throw {ℓ} : {A : Type ℓ} (e : TxError) → Keeps P (throw {A = A} e)
  unfolding ◌>>=◌
  Keeps-throw e = record { at = λ db h. tt }

  pub Keeps-or_fail {ℓ} : {A : Type ℓ} (o : Option A) (e : TxError) → Keeps P (or_fail o e)
  unfolding ◌>>=◌
  Keeps-or_fail none e = record { at = λ db h. tt }
  Keeps-or_fail (some a) e = record { at = λ db h. h }

  pub Keeps-as_uuid : (env : Env) (s : Str) → Keeps P (as_uuid env s)
  unfolding as_uuid
  Keeps-as_uuid env s = Keeps-or_fail (env.parse_uuid s) (pg invalid_text)

  pub After-bind {ℓ κ} :
      {A : Type ℓ} {B : Type κ} (o : Outcome A) (f : A → Tx B)
      → After P o
      → ((a : A) → Keeps P (f a))
      → After P (elim o [ done a db ↦ f a db | fail e ↦ fail e ])
  After-bind (done a db) f h k = (k a).at db h
  After-bind (fail e) f h k = tt

  pub Keeps-bind {ℓ κ} :
      {A : Type ℓ} {B : Type κ} (m : Tx A) (f : A → Tx B)
      → Keeps P m
      → ((a : A) → Keeps P (f a))
      → Keeps P (m >>= f)
  unfolding ◌>>=◌
  Keeps-bind m f km kf = record { at = λ db h. After-bind (m db) f (km.at db h) kf }

  pub Keeps-guard {ℓ} :
      {B : Type ℓ} (b : Bool) (e : TxError) (m : Tx B)
      → (b ≡ true → Keeps P m)
      → Keeps P (guard b e >> m)
  unfolding ◌>>=◌
  Keeps-guard true e m k = k refl
  Keeps-guard false e m k = record { at = λ db h. tt }

  pub Keeps-if {ℓ} :
      {A : Type ℓ} {yes no : Tx A} (test : Bool)
      → Keeps P yes
      → Keeps P no
      → Keeps P (if test then yes else no)
  Keeps-if false y n = n
  Keeps-if true y n = y

module _ (P : Db → Type 0) where
  -- A guard that reads the database at hand.
  pub After-guard {ℓ} :
      {B : Type ℓ} (b : Bool) (e : TxError) (m : Tx B) (db : Db)
      → (b ≡ true → After P (m db))
      → After P ((guard b e >> m) db)
  unfolding ◌>>=◌
  After-guard true e m db k = k refl
  After-guard false e m db k = tt

  -- A query for one row.
  pub After-or_fail {ℓ κ} :
      {A : Type ℓ} {B : Type κ} (o : Option A) (e : TxError) (f : A → Tx B) (db : Db)
      → ((a : A) → o ≡ some a → After P (f a db))
      → After P ((or_fail o e >>= f) db)
  unfolding ◌>>=◌
  After-or_fail none e f db k = tt
  After-or_fail (some a) e f db k = k a refl

module _ {ℓ} (P : Db → Type 0) {A : Type ℓ} where
  settle-Keeps : (db : Db) (o : Outcome A) → P db → After P o → P (settle db o).1
  settle-Keeps db (done a d) h k = k
  settle-Keeps db (fail e) h k = h

  -- What the function keeps holds after the transaction, committed or rolled back.
  pub run_tx-Keeps : (m : Tx A) (db : Db) → Keeps P m → P db → P (run_tx m db).1
  unfolding run_tx
  run_tx-Keeps m db k h = settle-Keeps db (m db) h (k.at db h)

pub ruleset keeps_rules =
    (Keeps-pure, Keeps-throw, Keeps-or_fail, Keeps-as_uuid, Keeps-bind, Keeps-guard, Keeps-if)
