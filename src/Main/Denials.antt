-- ===== src/Main/Denials.antt =====
-- `xs.OnDenial` of admin/cmd/sandcastle-admin/main.go.
use sandcastle.Prelude.{ℕ, Bool, true, false, Option, none, some, List, ◌∷◌, ◌++◌, Str}
use sandcastle.Policy.Rules.{Workspace}
use sandcastle.Go.Numbers.{show_int}
use sandcastle.Watch.{Pod, by_ip}
use sandcastle.Throttle.{Last, allow}
use sandcastle.Store.Db.{Env, Db}
use sandcastle.Store.Requests.{record_denial}
use sandcastle.Xds.Server.{Denial}

-- fmt.Sprintf("%s|%s|%d", …)
unfoldable pub denial_key : Workspace → Denial → Str
denial_key ws d = ws.id ++ b'|' ∷ (d.host ++ b'|' ∷ show_int d.port)

-- The throttle's map and the database, after a denial that was allowed or not.
unfoldable pub if_allowed : Env → Workspace → Denial → Bool × Last → Db → Last × Db
if_allowed env ws d (false, last) db = (last, db)
if_allowed env ws d (true, last) db = (last, (record_denial env ws.id d.host d.port db).1)

unfoldable pub denied : Env → ℕ → Denial → Last × Db → Option Workspace → Last × Db
unfolding if_allowed denial_key
denied env now d (last, db) none = (last, db)
denied env now d (last, db) (some ws) = if_allowed env ws d (allow (denial_key ws d) now last) db

-- OnDenial, at a reading of the clock; an error of the store is only logged.
unfoldable pub on_denial : Env → ℕ → List Pod → Denial → Last × Db → Last × Db
unfolding denied
on_denial env now pods d s = denied env now d s (by_ip d.src_ip pods)
