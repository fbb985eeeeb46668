-- ===== src/Go/Durations.antt =====
-- `time.Duration`.
use sandcastle.Prelude.{ℕ, zero, suc, ◌+◌, ◌/◌}
use sandcastle.Prelude.Int.{ℤ, pos, negsuc}

-- In nanoseconds, a `time.Duration`.
abbrev pub billion : ℕ
billion = 1000000000

-- int(ttl.Seconds())
unfoldable pub whole_seconds : ℤ → ℤ
whole_seconds (pos n) = pos (n / billion)
whole_seconds (negsuc n) = elim ((n + 1) / billion) [ zero ↦ pos 0 | suc m ↦ negsuc m ]
