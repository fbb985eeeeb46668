-- ===== src/Store/Tx.antt =====
-- `tx` and `audit` of admin/internal/store/store.go: `pgx.BeginFunc` commits where the function
-- returns nil, and rolls everything back where it returns an error.
use sandcastle.Prelude.{◌≡◌, refl, ap, Bool, true, false, Option, none, some, [], ◌∷◌, ◌++◌, Str}
use sandcastle.Store.Db.{Env, Uuid, Db, TxError, pg, invalid_text, Result, ok, err, map_err, Detail}

pub data Outcome {ℓ} (A : Type ℓ) : Type ℓ where
  done : A → Db → Outcome A
  fail : TxError → Outcome A

abbrev pub Tx {ℓ} : Type ℓ → Type ℓ
Tx A = Db → Outcome A

unfoldable pub pure {ℓ} : {A : Type ℓ} → A → Tx A
pure a db = done a db

unfoldable pub throw {ℓ} : {A : Type ℓ} → TxError → Tx A
throw e db = fail e

unfoldable pub guard : Bool → TxError → Tx (Unit {0})
guard true e db = done tt db
guard false e db = fail e

-- A query with no row is `ErrNoRows`.
unfoldable pub or_fail {ℓ} : {A : Type ℓ} → Option A → TxError → Tx A
or_fail none e db = fail e
or_fail (some a) e db = done a db

infixl 5 ◌>>=◌ ◌>>◌
-- To unfold it is to unfold all of the monad.
unfoldable pub ◌>>=◌ {ℓ κ} : {A : Type ℓ} {B : Type κ} → Tx A → (A → Tx B) → Tx B
unfolding pure throw guard or_fail
◌>>=◌ m f db = elim (m db) [ done a db' ↦ f a db' | fail e ↦ fail e ]

abbrev pub ◌>>◌ {ℓ κ} : {A : Type ℓ} {B : Type κ} → Tx A → Tx B → Tx B
m >> n = m >>= λ _. n

abbrev pub settle {ℓ} : {A : Type ℓ} → Db → Outcome A → Result A × Db
settle db (done a db') = (ok a, db')
settle db (fail e) = (err (map_err e), db)

unfoldable pub run_tx {ℓ} : {A : Type ℓ} → Tx A → Db → Result A × Db
run_tx m db = settle db (m db)

-- A text parameter where the column is a uuid.
unfoldable pub as_uuid : Env → Str → Tx Uuid
as_uuid env s = or_fail (env.parse_uuid s) (pg invalid_text)

unfoldable pub audit : Env → Str → Str → Detail → Tx (Unit {0})
audit env actor action detail db = done tt (record db {
  audit =
      db.audit ++ (record { at = env.now; actor = actor; action = action; detail = detail }) ∷ [];
})

-- The first step of a sequence, where it succeeds or fails.
pub bind_done {ℓ κ} :
    {A : Type ℓ} {B : Type κ} (m : Tx A) (f : A → Tx B) (db d : Db) (a : A)
    → m db ≡ done a d
    → (m >>= f) db ≡ f a d
unfolding ◌>>=◌
bind_done {A} {B} m f db d a e =
    ap (λ (o : Outcome A). elim o as (λ _. Outcome B) [ done x d' ↦ f x d' | fail r ↦ fail r ]) e

pub bind_fail {ℓ κ} :
    {A : Type ℓ} {B : Type κ} (m : Tx A) (f : A → Tx B) (db : Db) (e : TxError)
    → m db ≡ fail e
    → (m >>= f) db ≡ fail e
unfolding ◌>>=◌
bind_fail {A} {B} m f db e q =
    ap (λ (o : Outcome A). elim o as (λ _. Outcome B) [ done x d' ↦ f x d' | fail r ↦ fail r ]) q

pub as_uuid-done :
    (env : Env) (s : Str) (u : Uuid) (db : Db)
    → env.parse_uuid s ≡ some u
    → as_uuid env s db ≡ done u db
unfolding as_uuid ◌>>=◌
as_uuid-done env s u db e = rw e refl

-- A sequence that succeeds has steps that do.
pub bind_inv {ℓ κ} :
    {A : Type ℓ} {B : Type κ} (m : Tx A) (f : A → Tx B) (db d : Db) (b : B)
    → (m >>= f) db ≡ done b d
    → (a : A) × (c : Db) × (m db ≡ done a c) × (f a c ≡ done b d)
unfolding ◌>>=◌
bind_inv {A} {B} m f db d b e = go (m db) e
  where
    go :
        (o : Outcome A)
        → elim o as (λ _. Outcome B) [ done x d' ↦ f x d' | fail r ↦ fail r ] ≡ done b d
        → (a : A) × (c : Db) × (o ≡ done a c) × (f a c ≡ done b d)
    go (done a c) q = (a, c, refl, q)
    go (fail r) q = absurd (cc)

pub run_tx_inv {ℓ} :
    {A : Type ℓ} (m : Tx A) (db : Db) (a : A)
    → (run_tx m db).0 ≡ ok a
    → m db ≡ done a (run_tx m db).1
unfolding run_tx
run_tx_inv {A} m db a e = go (m db) e
  where
    go : (o : Outcome A) → (settle db o).0 ≡ ok a → o ≡ done a (settle db o).1
    go (done x d) q = let r : x ≡ a = cc in ap (λ (y : A). done y d) r
    go (fail r) q = absurd (cc)

pub or_fail_inv {ℓ} :
    {A : Type ℓ} (o : Option A) (r : TxError) (db d : Db) (a : A)
    → or_fail o r db ≡ done a d
    → (o ≡ some a) × (d ≡ db)
unfolding or_fail
or_fail_inv none r db d a e = absurd (cc)
or_fail_inv (some x) r db d a e = (cc, cc)

pub guard_inv :
    (b : Bool) (r : TxError) (db d : Db) (a : Unit {0})
    → guard b r db ≡ done a d
    → (b ≡ true) × (d ≡ db)
unfolding guard
guard_inv true r db d a e = (refl, cc)
guard_inv false r db d a e = absurd (cc)
