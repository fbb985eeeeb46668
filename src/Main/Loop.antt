-- ===== src/Main/Loop.antt =====
-- The channel `changed`, `notify` and the loop of `serve` in admin/cmd/sandcastle-admin/main.go, as
-- steps of the goroutines. What can change the policy is counted: a change is made, and then notified.
use sandcastle.Prelude.{ℕ, suc, ◌+◌, ◌<◌, ◌≡◌, ◌⊎◌, inl, inr, refl, Bool, true, false, arith}

-- Where the loop is: in its select, in the sleep that coalesces, in `reconcile` before it has loaded
-- the policy, or behind an expiry that removed grants.
pub data Phase : Type 0 where
  waiting coalescing reconciling expired : Phase

-- Whether the channel holds a signal; the changes made, those not notified yet by their own
-- goroutines, those that the last load that succeeded saw, and whether a load failed since.
pub record Server : Type 0 where
  pub signal : Bool
  pub phase : Phase
  pub changes : ℕ
  pub owed : ℕ
  pub loaded : ℕ
  pub failed : Bool

-- notify: a send that does not block leaves a full channel full.
unfoldable pub notify : Bool → Bool
notify signal = true

-- A step of a handler or of the informer: the change itself, and then its signal.
pub data WriterStep : Server → Server → Type 0 where
  changed : (s : Server) → WriterStep s (record s { changes = s.changes + 1; owed = s.owed + 1 })
  notified :
      (s : Server) (n : ℕ)
      → s.owed ≡ suc n
      → WriterStep s (record s { owed = n; signal = notify s.signal })

-- A tick, of the resync or of an expiry that removes grants.
pub data TickStep : Server → Server → Type 0 where
  resynced : (s : Server) → s.phase ≡ waiting → TickStep s (record s { phase = reconciling })
  expires :
      (s : Server)
      → s.phase ≡ waiting
      → TickStep s (record s { phase = expired; changes = s.changes + 1 })

-- A step that the loop of `serve` takes by itself; a load may fail.
pub data LoopStep : Server → Server → Type 0 where
  received :
      (s : Server)
      → s.phase ≡ waiting
      → s.signal ≡ true
      → LoopStep s (record s { signal = false; phase = coalescing })
  drained :
      (s : Server)
      → s.phase ≡ coalescing
      → LoopStep s (record s { signal = false; phase = reconciling })
  reconciled :
      (s : Server)
      → s.phase ≡ reconciling
      → LoopStep s (record s { phase = waiting; loaded = s.changes; failed = false })
  load_failed :
      (s : Server)
      → s.phase ≡ reconciling
      → LoopStep s (record s { phase = waiting; failed = true })
  renotified :
      (s : Server)
      → s.phase ≡ expired
      → LoopStep s (record s { phase = waiting; signal = notify s.signal })

-- The loop starts with a signal in the channel.
abbrev pub start : Server
start = record { signal = true; phase = waiting; changes = 0; owed = 0; loaded = 0; failed = false }

pub data Reach : Server → Type 0 where
  begin : Reach start
  writes : (s t : Server) → Reach s → WriterStep s t → Reach t
  ticks : (s t : Server) → Reach s → TickStep s t → Reach t
  loops : (s t : Server) → Reach s → LoopStep s t → Reach t

-- Where the loop waits with changes that it has not loaded, a signal is there or is to come, or the
-- load failed.
unfoldable Noticed : Server → Type 0
Noticed s =
    (s.phase ≡ waiting)
    → (s.loaded ≡ s.changes) ⊎ (s.signal ≡ true) ⊎ (0 < s.owed) ⊎ (s.failed ≡ true)

write-Noticed : (s t : Server) → WriterStep s t → Noticed t
unfolding Noticed notify
write-Noticed s t (changed _) e = inr (inr (inl (omega arith)))
write-Noticed s t (notified _ n o) e = inr (inl refl)

tick-Noticed : (s t : Server) → TickStep s t → Noticed t
unfolding Noticed
tick-Noticed s t (resynced _ p) q = absurd (cc)
tick-Noticed s t (expires _ p) q = absurd (cc)

loop-Noticed : (s t : Server) → LoopStep s t → Noticed t
unfolding Noticed notify
loop-Noticed s t (received _ p e) q = absurd (cc)
loop-Noticed s t (drained _ p) q = absurd (cc)
loop-Noticed s t (reconciled _ p) q = inl refl
loop-Noticed s t (load_failed _ p) q = inr (inr (inr refl))
loop-Noticed s t (renotified _ p) q = inr (inl refl)

Reach-Noticed : (s : Server) → Reach s → Noticed s
Reach-Noticed s begin = unfold Noticed in λ q. inl refl
Reach-Noticed t (writes s _ r e) = write-Noticed s t e
Reach-Noticed t (ticks s _ r e) = tick-Noticed s t e
Reach-Noticed t (loops s _ r e) = loop-Noticed s t e

-- Steps of the loop alone.
pub data Runs : Server → Server → Type 0 where
  stops : (s : Server) → Runs s s
  goes_on : (s t u : Server) → LoopStep s t → Runs t u → Runs s u

-- A run of the loop that loads every change made before it, and waits again.
abbrev pub Catches : Server → Type 0
Catches s =
    (t : Server) × Runs s t × (t.phase ≡ waiting) × (t.loaded ≡ s.changes) × (t.changes ≡ s.changes)

from_reconciling : (s : Server) → s.phase ≡ reconciling → Catches s
from_reconciling s p = (_, goes_on s _ _ (reconciled s p) (stops _), refl, refl, refl)

from_coalescing : (s : Server) → s.phase ≡ coalescing → Catches s
from_coalescing s p =
    let (t, r, a, b, c) =
      from_reconciling (record s { signal = false; phase = reconciling }) refl in
    (t, goes_on s _ t (drained s p) r, a, b, c)

from_signal : (s : Server) → s.phase ≡ waiting → s.signal ≡ true → Catches s
from_signal s p e =
    let (t, r, a, b, c) = from_coalescing (record s { signal = false; phase = coalescing }) refl in
    (t, goes_on s _ t (received s p e) r, a, b, c)

from_expired : (s : Server) → s.phase ≡ expired → Catches s
unfolding notify
from_expired s p =
    let (t, r, a, b, c) =
      from_signal (record s { phase = waiting; signal = notify s.signal }) refl refl in
    (t, goes_on s _ t (renotified s p) r, a, b, c)

Phase-cases : (p : Phase) → (p ≡ waiting) ⊎ (p ≡ coalescing) ⊎ (p ≡ reconciling) ⊎ (p ≡ expired)
Phase-cases waiting = inl refl
Phase-cases coalescing = inr (inl refl)
Phase-cases reconciling = inr (inr (inl refl))
Phase-cases expired = inr (inr (inr refl))

-- No change is lost: in every state that the goroutines can reach, in which each change has been
-- notified, the loop has a way on of its own, without a further signal or tick, that loads every
-- change and waits again; or a load has failed, and it has that way from the next tick of the resync.
pub changes_caught :
    (s : Server)
    → Reach s
    → s.owed ≡ 0
    → Catches s
      ⊎ ((s.failed ≡ true) × (t : Server) × TickStep s t × (t.changes ≡ s.changes) × Catches t)
unfolding Noticed
changes_caught s r o = elim (Phase-cases s.phase) [
  | inr (inl p) ↦ inl (from_coalescing s p)
  | inr (inr (inl p)) ↦ inl (from_reconciling s p)
  | inr (inr (inr p)) ↦ inl (from_expired s p)
  | inl p ↦ elim (Reach-Noticed s r p) [
    | inl e ↦ inl (s, stops s, p, e, refl)
    | inr (inl e) ↦ inl (from_signal s p e)
    | inr (inr (inl e)) ↦ absurd (omega (arith, e, o))
    | inr (inr (inr e)) ↦
        inr (e, _, resynced s p, refl, from_reconciling (record s { phase = reconciling }) refl)
  ]
]
