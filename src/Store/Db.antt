-- ===== src/Store/Db.antt =====
-- The tables of admin/internal/store/migrations/001_init.sql and the values of the store's Go types.
-- Columns that no query reads (created_at of zones and rules, assigned_at) are left out.
use sandcastle.Prelude.{ℕ, ◌≡◌, ◌≢◌, Bool, Option, some, List, [], Str}
use sandcastle.Prelude.Int.{ℤ}
use sandcastle.Policy.Rules.{Rule}

-- A uuid, as the number that its 128 bits spell.
abbrev pub Uuid : Type 0
Uuid = ℕ

-- Microseconds, Postgres's unit of time.
abbrev pub Time : Type 0
Time = ℕ

abbrev pub second : Time
second = 1000000

-- What one transaction takes from Postgres: its time, the uuids that it draws, and the text form
-- of a uuid.
pub record Env : Type 0 where
  pub now : Time
  pub draw : ℕ → Uuid
  pub parse_uuid : Str → Option Uuid
  pub show_uuid : Uuid → Str

-- Documented behaviour of `::uuid` and `::text`: the printed form reads back, and is not empty.
pub record ReadsBack (env : Env) : Type 0 where
  pub parse-show : (u : Uuid) → env.parse_uuid (env.show_uuid u) ≡ some u
  pub show-ne_nil : (u : Uuid) → env.show_uuid u ≢ []

pub record Zone : Type 0 where
  pub id : Uuid
  pub name : Str
  pub is_default : Bool

pub record RuleRow : Type 0 where
  pub id : Uuid
  pub zone_id : Option Uuid
  pub workspace_id : Option Uuid
  pub rule : Rule
  pub expires_at : Option Time
  pub created_by : Str

pub record Assignment : Type 0 where
  pub workspace_id : Uuid
  pub zone_id : Uuid
  pub assigned_by : Str

pub data Status : Type 0 where
  pending approved denied : Status

pub record Request : Type 0 where
  pub id : Uuid
  pub workspace_id : Uuid
  pub host : Str
  pub port : ℤ
  pub justification : Str
  pub requester : Str
  pub status : Status
  pub decided_by : Option Str
  pub ttl : Option ℤ
  pub created_at : Time
  pub decided_at : Option Time

pub record Denial : Type 0 where
  pub workspace_id : Uuid
  pub host : Str
  pub port : ℤ
  pub count : ℕ
  pub first_seen : Time
  pub last_seen : Time

-- The values of an audit row's JSON detail.
pub data Value : Type 0 where
  text : Str → Value
  texts : List Str → Value
  int : ℤ → Value
  flag : Bool → Value
  duration : ℤ → Value

abbrev pub Detail : Type 0
Detail = List (Str × Value)

pub record AuditRow : Type 0 where
  pub at : Time
  pub actor : Str
  pub action : Str
  pub detail : Detail

-- The audit log, oldest first.
pub record Db : Type 0 where
  pub zones : List Zone
  pub rules : List RuleRow
  pub assignments : List Assignment
  pub requests : List Request
  pub denials : List Denial
  pub audit : List AuditRow

abbrev pub empty_db : Db
empty_db = record {
  zones = [];
  rules = [];
  assignments = [];
  requests = [];
  denials = [];
  audit = [];
}

-- ErrConflict, ErrInvalid, ErrNotFound, and what `mapErr` passes on unread.
pub data Error : Type 0 where
  conflict invalid not_found other : Error

-- The SQLSTATE codes that `mapErr` tells apart: 23505, 23503, 23514, 22P02, and the rest.
pub data PgCode : Type 0 where
  unique_violation foreign_key_violation check_violation invalid_text unlisted : PgCode

-- What a transaction's function returns when it fails: a driver error, or one of the store's.
pub data TxError : Type 0 where
  pg : PgCode → TxError
  own : Error → TxError

unfoldable pub map_err : TxError → Error
map_err (pg unique_violation) = conflict
map_err (pg foreign_key_violation) = conflict
map_err (pg check_violation) = invalid
map_err (pg invalid_text) = invalid
map_err (pg unlisted) = other
map_err (own e) = e

pub data Result {ℓ} (A : Type ℓ) : Type ℓ where
  ok : A → Result A
  err : Error → Result A
