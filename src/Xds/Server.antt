-- ===== src/Xds/Server.antt =====
-- `denial`, `StreamAccessLogs` and `Push` of admin/internal/xds/server.go.
use sandcastle.Prelude.{
  ℕ, ◌+◌, ◌%◌, Bool, true, false, not, ◌||◌, ◌==◌, Option, none, some, List, [], ◌∷◌, Str, str_eq,
  if◌then◌else◌,
}
use sandcastle.Prelude.Int.{ℤ, pos}
use sandcastle.Go.Strings.{to_lower}
use sandcastle.Go.Numbers.{atoi, decimal}
use sandcastle.Go.Net.{split_host_port}
use sandcastle.Policy.Name.{valid_name}
use sandcastle.Xds.Build.{Resources}

-- What `denial` reads of an HTTPAccessLogEntry; an absent field reads as zero or empty.
pub record Entry : Type 0 where
  pub code : ℕ
  pub address : Str
  pub authority : Str

pub record Denial : Type 0 where
  pub src_ip : Str
  pub host : Str
  pub port : ℤ

-- The host and port of an authority, port 80 where there is none or it is no number.
unfoldable pub with_port : Str → Str → ℤ × Bool → Str × ℤ
with_port authority host (n, true) = (host, n)
with_port authority host (n, false) = (authority, pos 80)

unfoldable pub split_authority : Str → Option (Str × Str) → Str × ℤ
unfolding with_port
split_authority authority none = (authority, pos 80)
split_authority authority (some (host, port)) = with_port authority host (atoi port)

unfoldable pub named_denial : Str → Str × ℤ → Option Denial
named_denial ip (host, port) =
    if str_eq ip [] || not (valid_name host)
    then none
    else some (record { src_ip = ip; host = host; port = port })

-- denial
unfoldable pub denial : (ℕ → ℕ) → Entry → Option Denial
unfolding named_denial split_authority
denial lower e =
    if e.code == 403
    then named_denial e.address (
        split_authority (to_lower lower e.authority) (split_host_port (to_lower lower e.authority)))
    else none

-- What Recv returns: a message's entries, io.EOF or another error.
pub data Recv : Type 0 where
  logs : List Entry → Recv
  eof failed : Recv

-- How a stream ended, if it did: with nil, or with an error.
pub data Ended : Type 0 where
  open_still ended_ok ended_failed : Ended

module _ {S : Type 0} (lower : ℕ → ℕ) (on_denial : Denial → S → S) where
  unfoldable pub report : Option Denial → S → S
  report none s = s
  report (some d) s = on_denial d s

  -- The inner loop.
  unfoldable pub report_all : List Entry → S → S
  unfolding report
  report_all [] s = s
  report_all (e ∷ es) s = report_all es (report (denial lower e) s)

  -- StreamAccessLogs, on what Recv returns in turn.
  unfoldable pub stream : List Recv → S → S × Ended
  unfolding report_all
  stream [] s = (s, open_still)
  stream (logs es ∷ more) s = stream more (report_all es s)
  stream (eof ∷ more) s = (s, ended_ok)
  stream (failed ∷ more) s = (s, ended_failed)

-- The server's version counter, a uint64, and the snapshot in its cache.
pub record XdsServer (S : Type 0) : Type 0 where
  pub version : ℕ
  pub snapshot : Option S

-- go-control-plane's cache: NewSnapshot, Consistent, and whether SetSnapshot, having stored a
-- snapshot, reports that every watcher was answered.
pub record Cache (M S : Type 0) : Type 0 where
  pub new_snapshot : Str → Resources M → Option S
  pub is_consistent : S → Bool
  pub responds : S → Bool

module _ {M S : Type 0} (cache : Cache M S) where
  unfoldable pub set_snapshot : XdsServer S → Option S → Bool × XdsServer S
  set_snapshot x none = (false, x)
  set_snapshot x (some snap) =
      if cache.is_consistent snap
      then (cache.responds snap, record x { snapshot = some snap })
      else (false, x)

  -- Push: whether it returned nil, and the server.
  unfoldable pub push : Resources M → XdsServer S → Bool × XdsServer S
  unfolding set_snapshot
  push res x =
      let next : ℕ = (x.version + 1) % 18446744073709551616 in
      set_snapshot (record x { version = next }) (cache.new_snapshot (decimal next) res)
