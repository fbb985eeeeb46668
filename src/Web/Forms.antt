-- ===== src/Web/Forms.antt =====
-- `done`, `ttlFor` and `back` of admin/internal/web/web.go, and the handlers `approve` and `deny` of
-- admin/internal/web/handlers.go. A form is a function from names to values, as FormValue is.
use sandcastle.Prelude.{
  ◌≤◌, ◌<◌, ◌≡◌, ◌≢◌, ◌⊎◌, &&_split, refl, inl, inr, Bool, true, false, ◌&&◌, Option, none, some,
  [], ◌∷◌, Str, codes, ℕ, str_eq, arith, Bool-cases, if◌then◌else◌,
}
use sandcastle.Prelude.Assoc.{Map, get}
use sandcastle.Prelude.Int.{ℤ, pos}
use sandcastle.Store.Db.{Env, Db, Error, conflict, invalid, not_found, other, Result, ok, err}
use sandcastle.Http.{Response, see_other, bad_request, conflicted, missing, internal}
use sandcastle.Auth.Config.{User}
use sandcastle.Web.Pages.{Page}
use sandcastle.Store.Tx.{Tx, Outcome, done, fail, run_tx, settle}
use sandcastle.Store.Requests.{decide}

abbrev pub Form : Type 0
Form = Str → Str

-- In microseconds.
abbrev pub hour : ℕ
hour = 3600000000

abbrev pub minute : ℕ
minute = 60000000

unfoldable pub ttls : Map ℕ
ttls =
    (codes "1h", hour)
    ∷ (codes "24h", 86400000000)
    ∷ (codes "168h", 604800000000)
    ∷ (codes "720h", 2592000000000)
    ∷ []

unfoldable pub ttl_choice : Str → Str
ttl_choice [] = codes "168h"
ttl_choice (c ∷ v) = c ∷ v

-- ttlFor
unfoldable pub ttl_for : Form → User → Result ℕ
ttl_for form u = elim (get (ttl_choice (form (codes "ttl"))) ttls) [
  | some d ↦ ok d
  | none ↦
      if str_eq (ttl_choice (form (codes "ttl"))) (codes "60s") && u.bearer
      then ok minute
      else err invalid
]

unfoldable pub back : Form → Str
back form =
    if str_eq (form (codes "back")) (codes "/workspaces")
    then form (codes "back")
    else codes "/zones"

-- A handler's answer, whether it signalled a rebuild, and the database it leaves.
pub record Answer : Type 0 where
  pub response : Response Page
  pub changed : Bool
  pub db : Db

unfoldable pub status_of : Error → Response Page
status_of invalid = bad_request
status_of conflict = conflicted
status_of not_found = missing
status_of other = internal

-- done, after a call of the store
unfoldable pub finish : {A : Type 0} → Str → Result A × Db → Answer
finish to (ok a, db) = record { response = see_other to; changed = true; db = db }
finish to (err e, db) = record { response = status_of e; changed = false; db = db }

unfoldable pub approve : Env → Form → User → Str → Db → Answer
approve env form u id db = elim (ttl_for form u) [
  | ok ttl ↦ finish (codes "/queue") (decide env u.name id true (pos ttl) db)
  | err e ↦ finish {A = Unit {0}} (codes "/queue") (err e, db)
]

unfoldable pub deny : Env → User → Str → Db → Answer
deny env u id db = finish (codes "/queue") (decide env u.name id false (pos 0) db)

-- The time that ttlFor accepts is positive and at most 720 hours, and it is at least an hour or the
-- user is the bearer of the test token.
pub ttl_for_bound :
    (form : Form) (u : User) (t : ℕ)
    → ttl_for form u ≡ ok t
    → (0 < t) × (t ≤ 2592000000000) × ((hour ≤ t) ⊎ (u.bearer ≡ true))
unfolding ttl_for
ttl_for_bound form u t e = go (get (ttl_choice (form (codes "ttl"))) ttls) refl e
  where
    choices : (v : Str) (d : ℕ) → get v ttls ≡ some d → (hour ≤ d) × (d ≤ 2592000000000)
    choices v d g = unfold ttls get in ground arith

    go :
        (o : Option ℕ)
        → get (ttl_choice (form (codes "ttl"))) ttls ≡ o
        → elim o as (λ _. Result ℕ) [
          | some d ↦ ok d
          | none ↦
              if str_eq (ttl_choice (form (codes "ttl"))) (codes "60s") && u.bearer
              then ok minute
              else err invalid
        ]
          ≡ ok t
        → (0 < t) × (t ≤ 2592000000000) × ((hour ≤ t) ⊎ (u.bearer ≡ true))
    go (some d) g h =
        let q : d ≡ t = cc in
        let (a, b) = choices (ttl_choice (form (codes "ttl"))) d g in
        (omega (arith, q, a), omega (arith, q, b), inl (omega (arith, q, a)))
    go none g h =
        elim (Bool-cases (str_eq (ttl_choice (form (codes "ttl"))) (codes "60s") && u.bearer)) [
          | inl f ↦
              let k : ok minute ≡ ok t = rw f at h in
              let q : minute ≡ t = cc in
              (omega (arith, q), omega (arith, q), inr (&&_split {b = u.bearer} f).1)
          | inr f ↦ absurd (let k : err invalid ≡ ok t = rw f at h in cc)
        ]

pub run_tx_err :
    {A : Type 0} (m : Tx A) (db : Db) (e : Error) → (run_tx m db).0 ≡ err e → (run_tx m db).1 ≡ db
unfolding run_tx
run_tx_err {A} m db e h = go (m db) h
  where
    go : (o : Outcome A) → (settle db o).0 ≡ err e → (settle db o).1 ≡ db
    go (done a d) k = absurd (cc)
    go (fail r) k = refl

decide_err :
    (env : Env) (actor id : Str) (b : Bool) (ttl : ℤ) (db : Db) (e : Error)
    → (decide env actor id b ttl db).0 ≡ err e
    → (decide env actor id b ttl db).1 ≡ db
unfolding decide
decide_err env actor id b ttl db e h = run_tx_err _ db e h

refused : (to : Str) (e : Error) → status_of e ≢ see_other to
unfolding status_of
refused to conflict q = absurd (cc)
refused to invalid q = absurd (cc)
refused to not_found q = absurd (cc)
refused to other q = absurd (cc)

-- What a handler did that did not signal, and what the store did where it did.
unchanged :
    (to : Str) (db : Db) (r : Result (Unit {0}) × Db)
    → ((e : Error) → r.0 ≡ err e → r.1 ≡ db)
    → (finish to r).changed ≡ false
    → ((finish to r).db ≡ db) × ((finish to r).response ≢ see_other to)
unfolding finish
unchanged to db (ok a, d) h c = absurd (cc)
unchanged to db (err e, d) h c = (h e refl, refused to e)

-- An approval that does not signal a rebuild changes nothing, and does not redirect.
pub approve_atomic :
    (env : Env) (form : Form) (u : User) (id : Str) (db : Db)
    → (approve env form u id db).changed ≡ false
    → ((approve env form u id db).db ≡ db)
      × ((approve env form u id db).response ≢ see_other (codes "/queue"))
unfolding approve
approve_atomic env form u id db c = go (ttl_for form u) c
  where
    answer : Result ℕ → Answer
    answer r = elim r [
      | ok ttl ↦ finish (codes "/queue") (decide env u.name id true (pos ttl) db)
      | err e ↦ finish {A = Unit {0}} (codes "/queue") (err e, db)
    ]

    go :
        (r : Result ℕ)
        → (answer r).changed ≡ false
        → ((answer r).db ≡ db) × ((answer r).response ≢ see_other (codes "/queue"))
    go (ok ttl) c =
        unchanged (codes "/queue") db (decide env u.name id true (pos ttl) db)
          (decide_err env u.name id true (pos ttl) db) c
    go (err e) c = unchanged (codes "/queue") db (err e, db) (λ x h. refl) c
