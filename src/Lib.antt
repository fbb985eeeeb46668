-- ===== src/Lib.antt =====
-- Sandcastle's admin service: a model of the Go code under admin/, with proofs.
--
-- The service keeps the network policy of Coder workspaces. `store` holds zones, rules, assignments,
-- access requests, denials and an audit log in Postgres. `policy` says which rules a policy gives a
-- workspace and which addresses each host is open to. The main loop loads the policy, pushes the
-- hosts to Envoy (`xds`), and the DNS names to Cilium (`cilium`) in Kubernetes; `watch` lists the
-- running workspaces. `web` and `auth` serve administrators and users.
--
-- Files and the code they model:
--   Policy/Name      nameRE and ValidName of admin/internal/policy/policy.go; the pattern is a
--                    regular expression with a matcher by derivatives (Prelude/Regex)
--   Policy/Rules     its types, ValidRule, ZoneOf and Effective
--   Policy/Hosts     HostIPs
--   Store/Db, Sql    the tables and inserts of admin/internal/store/migrations/001_init.sql
--   Store/Tx         tx, audit and mapErr of admin/internal/store/store.go
--   Store/Load       Seed, PolicyInput, AuditSystem and Audit of the same file
--   Store/Zones      CreateZone to Assign, and Zones, of admin/internal/store/zones.go
--   Store/Rules      AddZoneRule, DeleteRule, Grant, Grants and ExpireGrants of the same file
--   Store/Requests   FileRequest, Decide, RecordDenial, Requests and Denials of
--                    admin/internal/store/requests.go
--   Store/Migrate    Migrate of admin/internal/store/store.go
--   Store/Ops        one call of the store, and histories of calls
--   Cilium/Render    Render, match, dnsRules and cnp of admin/internal/cilium/cilium.go
--   Cilium/Apply     its Apply
--   Xds/Json         the JSON values of admin/internal/xds/build.go, and its typed
--   Xds/Listeners    its proxyListener, sniListener, dfpCluster and dnsCache
--   Xds/Routes       its hashName and rbacPerRoute, and what the loop of Build makes of one key
--   Xds/Build        its Build
--   Xds/Server       denial, StreamAccessLogs and Push of admin/internal/xds/server.go
--   Watch            Running, ByIP and ByID of admin/internal/watch/pods.go
--   Throttle         throttle of admin/cmd/sandcastle-admin/main.go
--   Throttle/Failures  the auditing of failures in its reconcile
--   Main/Reconcile   its apply
--   Main/Denials     its OnDenial
--   Main/Loop        its channel changed, notify, and the loop of serve
--   Http             what handlers read of a request and write to a response
--   Auth/Config      the types of admin/internal/auth/auth.go, and New
--   Auth/Cookies     its setSigned, getSigned, mac, b64 and random
--   Auth/Session     its User and Issue
--   Auth/Gate        its Require
--   Auth/Login       its Login, localPath, Callback, me and Logout
--   Web/Pages        what the handlers hand to the templates
--   Web/Forms        done, ttlFor and back of admin/internal/web/web.go, and the handlers approve and
--                    deny of admin/internal/web/handlers.go
--   Web/Members      ruleFrom, hostPort, own and names of the former, and the handlers for every user
--   Web/Admins       the other handlers for administrators
--   Web/Routes       Routes of admin/internal/web/web.go, from a request to its answer
--   Go               what the program calls of Go's strings, strconv, net, net/url, time and
--                    encoding/base64
-- The other files hold proofs about these, and each names the code that it is about.
--
-- How the code's things correspond to the model's:
--   Texts are lists of code points. Go's maps are association lists; a loop over a map runs in the
--   order of the list, and `host_ips` takes that order as an argument of its own. Go's ints are
--   integers; the only one that is computed with, the counter of denials, is an int4 of Postgres,
--   and its overflow is the error that Postgres gives.
--   A transaction is a function from a database to a value and a database, or an error; run_tx
--   commits the first and rolls back the second. The time and uuids of a transaction are in its
--   Env, with how a uuid is read and printed. A time to live is a whole number of microseconds.
--   PolicyInput runs three queries outside a transaction, so it takes three databases. Tables keep
--   the order of insertion, which no query of the code relies on; rows that tie in an ORDER BY
--   stand in one of the orders that Postgres may choose.
--   Columns that no query reads are left out.
--   The Kubernetes API is a record of calls on a state of its own, each of which may fail. What
--   Apply relies on is in `Laws` and `Saves`, what reflect.DeepEqual tells in `IsDeepEqual`, and
--   what label selectors mean in `LabelLaws`. How Envoy reads the access control of a virtual host
--   is `admits`; which addresses lie in a range is a parameter with `RangeLaws`.
--   A handler is a function from a request, and the database, to an answer with a response, whether
--   a rebuild was signalled, and the database that it leaves; a query outside a transaction reads a
--   database of its own. Only the statuses, targets, cookies and page data of responses are kept.
--   The goroutines of serve are steps on the signal in the channel, the place of the loop, and the
--   numbers of the changes that were made, are not notified yet, and were seen by the last load.
--   HMAC-SHA256, SHA-256, encoding/json, url.Parse, oauth2, Coder's answers, the decoding of
--   messages, go-control-plane's cache and the lower case of letters are parameters. What the
--   session relies on of encoding/json is in `CodesBack`.
--   Recursion is on the data, but for the decimal form of a number, which takes one round more than
--   the number: `digits-decimal` shows that no digit is missing.
--
-- Not modelled: opening connections (pgx), the set-up of servers and informers, the environment,
-- lost connections between a commit and its answer, the templates and the headers that every
-- response gets, log lines, and what is not Go.
mod Prelude
pub mod Go
pub mod Http
pub mod Auth
pub mod Xds
pub mod Policy
pub mod Store
pub mod Cilium
pub mod Watch
pub mod Throttle
pub mod Main
pub mod Web
