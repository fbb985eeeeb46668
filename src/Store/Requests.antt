-- ===== src/Store/Requests.antt =====
-- The requests and denials of admin/internal/store/requests.go.
use sandcastle.Prelude.{
  ℕ, ◌+◌, Bool, true, false, not, ◌&&◌, ◌||◌, Option, none, some, List, [], ◌∷◌, ◌++◌, Str, codes,
  str_eq, str_lt, ◌==◌, ltb, keep, find, take, drop, any, if◌then◌else◌,
}
use sandcastle.Prelude.Int.{ℤ, pos, int_eq, int_lt}
use sandcastle.Prelude.Sort.{sort}
use sandcastle.Policy.Rules.{Rule, host_kind, valid_rule}
use sandcastle.Store.Db.{
  Env, Uuid, Time, second, Status, pending, approved, denied, Request, Denial, Db, Result, err, own,
  pg, invalid, conflict, other, unlisted, text, int, flag, Detail,
}
use sandcastle.Store.Tx.{Tx, pure, throw, guard, or_fail, ◌>>=◌, ◌>>◌, run_tx, as_uuid, audit}
use sandcastle.Store.Sql.{insert_request}
use sandcastle.Store.Rules.{grant}

abbrev pub host_rule : Str → ℤ → Rule
host_rule host port = record { kind = host_kind; value = host; port = port }

unfoldable pub is_pending : Status → Bool
is_pending pending = true
is_pending approved = false
is_pending denied = false

-- workspace_id = $1 AND host = $2 AND port = $3 AND status = 'pending'
unfoldable pub same_request : Uuid → Str → ℤ → Request → Bool
same_request ws host port q =
    q.workspace_id == ws && (str_eq q.host host && (int_eq q.port port && is_pending q.status))

unfoldable pub new_request : Env → Str → Uuid → Str → ℤ → Str → Request
new_request env actor ws host port justification = record {
  id = env.draw 0;
  workspace_id = ws;
  host = host;
  port = port;
  justification = justification;
  requester = actor;
  status = pending;
  decided_by = none;
  ttl = none;
  created_at = env.now;
  decided_at = none;
}

unfoldable pub file_new : Env → Str → Str → Uuid → Str → ℤ → Str → Tx Uuid
file_new env actor ws_id ws host port justification = do
  insert_request (new_request env actor ws host port justification)
  audit env actor (codes "request") (
      (codes "request", text (env.show_uuid (env.draw 0)))
      ∷ (codes "workspace", text ws_id)
      ∷ (codes "host", text host)
      ∷ (codes "port", int port)
      ∷ [])
  pure (env.draw 0)

-- The pending request that the first query finds, or a new one.
unfoldable pub find_or_file : Env → Str → Str → Uuid → Str → ℤ → Str → Tx Uuid
find_or_file env actor ws_id ws host port justification db =
    elim (find (same_request ws host port) db.requests) [
      | some q ↦ pure q.id db
      | none ↦ file_new env actor ws_id ws host port justification db
    ]

-- FileRequest
unfoldable pub file_request : Env → Str → Str → Str → ℤ → Str → Db → Result Uuid × Db
file_request env actor ws_id host port justification db =
    if valid_rule (host_rule host port)
    then run_tx (do ws ← as_uuid env ws_id; find_or_file env actor ws_id ws host port justification)
        db
    else (err invalid, db)

unfoldable pub decided : Env → Str → Bool → ℤ → Request → Request
decided env actor approve ttl q = record q {
  status = if approve then approved else denied;
  decided_by = some actor;
  ttl = if approve then some ttl else none;
  decided_at = some env.now;
}

unfoldable pub decide_row : Env → Str → Bool → ℤ → Uuid → List Request → List Request
decide_row env actor approve ttl u [] = []
decide_row env actor approve ttl u (q ∷ rows) =
    (if q.id == u && is_pending q.status then decided env actor approve ttl q else q)
    ∷ decide_row env actor approve ttl u rows

-- UPDATE requests … WHERE id = $5 AND status = 'pending' RETURNING …
unfoldable pub take_pending : Env → Str → Bool → ℤ → Uuid → Tx Request
take_pending env actor approve ttl u db =
    (do
      q ← or_fail (find (λ q. q.id == u && is_pending q.status) db.requests) (own conflict)
      λ d. pure q (record d { requests = decide_row env actor approve ttl u d.requests }))
      db

-- Decide; an approval inserts the grant in the same transaction.
unfoldable pub decide : Env → Str → Str → Bool → ℤ → Db → Result (Unit {0}) × Db
decide env actor id approve ttl = run_tx (do
  u ← as_uuid env id
  q ← take_pending env actor approve ttl u
  let extra : Detail =
      (codes "request", text id) ∷ (codes "self_approved", flag (str_eq actor q.requester)) ∷ []
  if approve
      then grant env actor (env.show_uuid q.workspace_id) (host_rule q.host q.port) ttl extra
      else audit env actor (codes "deny") extra)

-- workspace_id = $1 AND host = $2 AND port = $3: the primary key of denials.
unfoldable pub same_denial : Uuid → Str → ℤ → Denial → Bool
same_denial ws host port d = d.workspace_id == ws && (str_eq d.host host && int_eq d.port port)

unfoldable pub bump : Time → Denial → Denial
bump now d = record d { count = d.count + 1; last_seen = now }

unfoldable pub bump_rows : Time → Uuid → Str → ℤ → List Denial → List Denial
bump_rows now ws host port [] = []
bump_rows now ws host port (d ∷ rows) =
    (if same_denial ws host port d then bump now d else d) ∷ bump_rows now ws host port rows

abbrev pub max_denials : ℕ
max_denials = 200

abbrev pub int4_max : ℕ
int4_max = 2147483647

-- ORDER BY last_seen DESC, host
unfoldable pub newer : Denial → Denial → Bool
newer d e = ltb e.last_seen d.last_seen || (d.last_seen == e.last_seen && str_lt d.host e.host)

-- SELECT host, port FROM denials WHERE workspace_id = $1 ORDER BY last_seen DESC, host OFFSET 200
unfoldable pub overflow : Uuid → List Denial → List Denial
overflow ws rows = drop max_denials (sort newer (keep (λ d. d.workspace_id == ws) rows))

-- DELETE FROM denials WHERE workspace_id = $1 AND (host, port) IN (…)
unfoldable pub cap_denials : Uuid → List Denial → List Denial
cap_denials ws rows =
    keep
      (λ d. not (
        d.workspace_id == ws
        && any (λ e. str_eq d.host e.host && int_eq d.port e.port) (overflow ws rows)))
      rows

unfoldable pub fits_int4 : ℤ → Bool
fits_int4 p = int_lt p (pos (int4_max + 1)) && not (int_lt p (ℤ.negsuc int4_max))

-- INSERT … ON CONFLICT (workspace_id, host, port) DO UPDATE … WHERE last_seen < now() - 1 second,
-- and the cap where a row was inserted. The counter is an int4.
unfoldable pub record_tx : Env → Uuid → Str → ℤ → Tx (Unit {0})
record_tx env ws host port db = elim (find (same_denial ws host port) db.denials) [
  | none ↦ pure tt (record db {
    denials = cap_denials ws (
        db.denials
        ++ (record {
          workspace_id = ws;
          host = host;
          port = port;
          count = 1;
          first_seen = env.now;
          last_seen = env.now;
        })
          ∷ []);
  })
  | some d ↦
      if ltb (d.last_seen + second) env.now
      then (if ltb d.count int4_max
          then pure tt (record db { denials = bump_rows env.now ws host port db.denials })
          else throw (pg unlisted) db)
      else pure tt db
]

-- RecordDenial
unfoldable pub record_denial : Env → Str → Str → ℤ → Db → Result (Unit {0}) × Db
record_denial env ws_id host port =
    run_tx
      (do guard (fits_int4 port) (own other); ws ← as_uuid env ws_id; record_tx env ws host port)

unfoldable pub in_list : Uuid → List Uuid → Bool
in_list u us = any (λ v. v == u) us

-- $2::uuid[] IS NULL OR workspace_id = ANY ($2)
unfoldable pub selected : Option (List Uuid) → Uuid → Bool
selected none u = true
selected (some us) u = in_list u us

unfoldable pub same_status : Status → Status → Bool
same_status pending pending = true
same_status approved approved = true
same_status denied denied = true
same_status _ _ = false

unfoldable pub has_status : Option Status → Request → Bool
has_status none q = true
has_status (some s) q = same_status q.status s

-- Requests: newest first, at most 200.
unfoldable pub list_requests : Option Status → Option (List Uuid) → Db → List Request
list_requests status ws_ids db = take 200 (
    sort (λ q r. ltb r.created_at q.created_at)
      (keep (λ q. has_status status q && selected ws_ids q.workspace_id) db.requests))

-- Denials: newest first, at most 200.
unfoldable pub list_denials : Option (List Uuid) → Db → List Denial
list_denials ws_ids db = take 200 (
    sort (λ d e. ltb e.last_seen d.last_seen)
      (keep (λ d. selected ws_ids d.workspace_id) db.denials))
