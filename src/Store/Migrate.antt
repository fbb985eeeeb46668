-- ===== src/Store/Migrate.antt =====
-- `Migrate` of admin/internal/store/store.go: the pending migrations in the order of their names, and
-- the app role's password as a literal of SQL.
use sandcastle.Prelude.{
  ◌≡◌, inl, inr, refl, sym, ap, ◌∙◌, Bool, true, false, Option, none, some, List, [], ◌∷◌, ◌++◌,
  Str, codes, str_eq, str_eq_refl, ◌==◌, any, any_of-In, In-append_left, In-append_right, All,
  if◌then◌else◌, Bool-cases, In-of-any,
}

-- An entry of the migrations' directory: its name and its text.
abbrev pub Entry : Type 0
Entry = Str × Str

-- The versions in schema_migrations, and the rest of the database.
abbrev pub Schema : Type 0 → Type 0
Schema S = List Str × S

unfoldable pub is_applied : Str → List Str → Bool
is_applied name versions = any (λ v. str_eq v name) versions

-- strings.ReplaceAll(s, "'", "''")
unfoldable pub double_quotes : Str → Str
double_quotes [] = []
double_quotes (c ∷ s) = if c == b'\'' then c ∷ c ∷ double_quotes s else c ∷ double_quotes s

-- The text behind WITH LOGIN PASSWORD.
unfoldable pub sql_literal : Str → Str
unfolding double_quotes
sql_literal s = b'\'' ∷ (double_quotes s ++ b'\'' ∷ [])

-- How the run ended: with nil, or with the error of a migration or of the last statement.
pub data Migrated : Type 0 where
  migrated alter_failed : Migrated
  failed_at : Str → Migrated

-- The execution of a text, which fails or changes the database.
module _ {S : Type 0} (exec : Str → S → Option S) where
  -- One migration in its transaction, with its version.
  unfoldable pub run_entry : Entry → Schema S → Option (Schema S)
  run_entry (name, sql) (versions, s) = elim (exec sql s) [
    | none ↦ none
    | some s' ↦ some (versions ++ name ∷ [], s')
  ]

  unfoldable pub pending_entry : Entry → Schema S → Option (Schema S)
  unfolding run_entry is_applied
  pending_entry e d = if is_applied e.0 d.0 then some d else run_entry e d

  -- The loop: the entry at which it stopped, and the database.
  unfoldable pub migrate_all : List Entry → Schema S → Option Str × Schema S
  unfolding pending_entry
  migrate_all [] d = (none, d)
  migrate_all (e ∷ es) d = elim (pending_entry e d) [
    | none ↦ (some e.0, d)
    | some d' ↦ migrate_all es d'
  ]

  unfoldable pub alter_role : Str → Schema S → Migrated × Schema S
  unfolding sql_literal
  alter_role password (versions, s) =
      elim (exec (codes "ALTER ROLE sandcastle_app WITH LOGIN PASSWORD " ++ sql_literal password)
        s) [ none ↦ (alter_failed, (versions, s)) | some s' ↦ (migrated, (versions, s')) ]

  unfoldable pub after_loop : Str → Option Str × Schema S → Migrated × Schema S
  unfolding alter_role
  after_loop password (none, d) = alter_role password d
  after_loop password (some name, d) = (failed_at name, d)

  -- Migrate
  unfoldable pub migrate : List Entry → Str → Schema S → Migrated × Schema S
  unfolding migrate_all after_loop
  migrate entries password d = after_loop password (migrate_all entries d)

  -- Every entry's version is there.
  abbrev pub AllApplied : List Entry → Schema S → Type 0
  AllApplied es d = All (λ e. is_applied e.0 d.0 ≡ true) es

  migrate_all_applied :
      (es : List Entry) (d : Schema S) → AllApplied es d → migrate_all es d ≡ (none, d)
  unfolding migrate_all pending_entry
  migrate_all_applied [] d h = refl
  migrate_all_applied (e ∷ es) d h =
      ap (λ (b : Bool). after es (if b then some d else run_entry e d) e.0 d) h.0
      ∙ migrate_all_applied es d h.1
    where
      after : List Entry → Option (Schema S) → Str → Schema S → Option Str × Schema S
      after es o name d = elim o [ none ↦ (some name, d) | some d' ↦ migrate_all es d' ]

  is_applied_more :
      (name : Str) (vs ws : List Str)
      → is_applied name vs ≡ true
      → is_applied name (vs ++ ws) ≡ true
  unfolding is_applied
  is_applied_more name vs ws h =
      let (v, m, e) = In-of-any (λ v. str_eq v name) vs h in
      any_of-In (λ v. str_eq v name) v (vs ++ ws) (In-append_left v vs ws m) e

  is_applied_last : (name : Str) (vs : List Str) → is_applied name (vs ++ name ∷ []) ≡ true
  unfolding is_applied
  is_applied_last name vs =
      any_of-In (λ v. str_eq v name) name (vs ++ name ∷ [])
        (In-append_right name vs (name ∷ []) (inl refl)) (str_eq_refl name)

  -- A migration that runs, or is not pending, leaves its version and those before.
  pending_entry_versions :
      (e : Entry) (d d' : Schema S)
      → pending_entry e d ≡ some d'
      → (is_applied e.0 d'.0 ≡ true)
        × ((name : Str) → is_applied name d.0 ≡ true → is_applied name d'.0 ≡ true)
  unfolding pending_entry run_entry
  pending_entry_versions (name, sql) (vs, s) d' h = elim (Bool-cases (is_applied name vs)) [
    | inl e ↦
        let k : some (vs, s) ≡ some d' = rw e at h in
        let q : (vs, s) ≡ d' = cc in
        (
          ap (λ (x : Schema S). is_applied name x.0) (sym q) ∙ e,
          λ n a. ap (λ (x : Schema S). is_applied n x.0) (sym q) ∙ a,
        )
    | inr e ↦ go (exec sql s) (rw e at h)
  ]
    where
      go :
          (o : Option S)
          → elim o as (λ _. Option (Schema S)) [
            | none ↦ none
            | some s' ↦ some (vs ++ name ∷ [], s')
          ]
            ≡ some d'
          → (is_applied name d'.0 ≡ true)
            × ((n : Str) → is_applied n vs ≡ true → is_applied n d'.0 ≡ true)
      go none k = absurd (cc)
      go (some s') k =
          let q : (vs ++ name ∷ [], s') ≡ d' = cc in
          (
            ap (λ (x : Schema S). is_applied name x.0) (sym q) ∙ is_applied_last name vs,
            λ n a.
                ap (λ (x : Schema S). is_applied n x.0) (sym q)
                ∙ is_applied_more n vs (name ∷ []) a,
          )

  migrate_all_versions :
      (es : List Entry) (d d' : Schema S)
      → migrate_all es d ≡ (none, d')
      → AllApplied es d' × ((name : Str) → is_applied name d.0 ≡ true → is_applied name d'.0 ≡ true)
  unfolding migrate_all
  migrate_all_versions [] d d' h =
      let q : d ≡ d' = ap (λ x. x.1) h in
      (tt, λ n a. ap (λ (x : Schema S). is_applied n x.0) (sym q) ∙ a)
  migrate_all_versions (e ∷ es) d d' h =
      go (pending_entry e d) refl (λ c. migrate_all_versions es c d') h
    where
      go :
          (o : Option (Schema S))
          → pending_entry e d ≡ o
          → ((c : Schema S)
              → migrate_all es c ≡ (none, d')
              → AllApplied es d'
                × ((name : Str) → is_applied name c.0 ≡ true → is_applied name d'.0 ≡ true))
          → elim o as (λ _. Option Str × Schema S) [
            | none ↦ (some e.0, d)
            | some c ↦ migrate_all es c
          ]
            ≡ (none, d')
          → AllApplied (e ∷ es) d'
            × ((name : Str) → is_applied name d.0 ≡ true → is_applied name d'.0 ≡ true)
      go none p ih k = absurd (let q : some e.0 ≡ none = ap (λ x. x.0) k in cc)
      go (some c) p ih k =
          let (here, keeps) = pending_entry_versions e d c p in
          let (all, more) = ih c k in ((more e.0 here, all), λ n a. more n (keeps n a))

  -- A second run of the migrations, after one that did not stop, executes none of them.
  pub migrate_all_again :
      (es : List Entry) (d d' : Schema S)
      → migrate_all es d ≡ (none, d')
      → migrate_all es d' ≡ (none, d')
  migrate_all_again es d d' h = migrate_all_applied es d' (migrate_all_versions es d d' h).0

-- Postgres's reading of a literal: two quotes are one, and one quote ends it.
unfoldable pub read_quoted : Str → Option (Str × Str)
read_quoted [] = none
read_quoted (c ∷ []) = if c == b'\'' then some ([], []) else none
read_quoted (c ∷ d ∷ s) =
    if c == b'\''
    then (if d == b'\''
        then elim (read_quoted s) [ none ↦ none | some (t, rest) ↦ some (c ∷ t, rest) ]
        else some ([], d ∷ s))
    else elim (read_quoted (d ∷ s)) [ none ↦ none | some (t, rest) ↦ some (c ∷ t, rest) ]

read_quoted-double_quotes : (s : Str) → read_quoted (double_quotes s ++ b'\'' ∷ []) ≡ some (s, [])
unfolding read_quoted double_quotes
read_quoted-double_quotes [] = refl
read_quoted-double_quotes (c ∷ s) = elim (Bool-cases (c == b'\'')) [
  | inl e ↦ rw e (paired (double_quotes s ++ b'\'' ∷ []) (read_quoted-double_quotes s) e)
  | inr e ↦ rw e (plain (double_quotes s ++ b'\'' ∷ []) (read_quoted-double_quotes s) e)
]
  where
    paired :
        (t : Str)
        → read_quoted t ≡ some (s, [])
        → (c == b'\'') ≡ true
        → read_quoted (c ∷ c ∷ t) ≡ some (c ∷ s, [])
    paired t h e = rw (e, h) refl

    plain :
        (t : Str)
        → read_quoted t ≡ some (s, [])
        → (c == b'\'') ≡ false
        → read_quoted (c ∷ t) ≡ some (c ∷ s, [])
    plain [] h e = absurd (cc)
    plain (d ∷ t) h e = rw (e, h) refl

unfoldable pub read_literal : Str → Option (Str × Str)
read_literal [] = none
read_literal (c ∷ s) = if c == b'\'' then read_quoted s else none

-- The literal of a password of any characters, quotes too, is read back as the password, with nothing
-- left over behind it.
pub read_literal-sql_literal : (s : Str) → read_literal (sql_literal s) ≡ some (s, [])
unfolding read_literal sql_literal
read_literal-sql_literal s = read_quoted-double_quotes s
