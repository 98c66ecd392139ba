-- ===== src/RateLimit.antt =====
-- internal/ratelimit/limiter.go: a fixed-window counter kept in the key-value store.
pub mod Frame
pub mod Traced
pub mod Retry
pub mod Window
use pingclaw_server.Prelude.{
  ℕ, ◌/◌, ◌^◌, Bool, true, false, Option, none, some, Text, if◌then◌else◌,
}
use pingclaw_server.Prelude.Int.{ℤ, pos, negsuc, is_neg, leb_ℤ, eq_ℤ}
use pingclaw_server.World.{World, M, pure, ◌>>=◌, ◌>>◌, kv_incr, kv_expire, kv_ttl}

pub record Limiter : Type 0 where
  pub window : ℤ

-- int(ttl.Seconds()), a duration in nanoseconds truncated towards zero. Seconds is a float64, which is
-- taken as exact: its rounding can only matter for windows of months.
abbrev pub seconds : ℤ → ℤ
seconds (pos n) = pos (n / 10 ^ 9)
seconds (negsuc n) = pos 0

pub record Verdict : Type 0 where
  pub allowed : Bool
  pub retry_after : ℤ

abbrev pub pass : Verdict
pass = record { allowed = true; retry_after = pos 0 }

-- The time left, or the window when the store does not know it.
abbrev pub or_window : ℤ → Option ℤ → ℤ
or_window window none = window
or_window window (some t) = if is_neg t then window else t

deny_unless : Bool → Limiter → Text → M Verdict
deny_unless true l key = pure pass
deny_unless false l key = do
  left ← kv_ttl key
  pure (record { allowed = false; retry_after = seconds (or_window l.window left) })

limit : Limiter → Text → ℕ → Option ℤ → M Verdict
unfolding deny_unless
limit l key max none = pure pass
limit l key max (some count) = do
  (if eq_ℤ count (pos 1) then kv_expire key l.window else pure true)
  deny_unless (leb_ℤ count (pos max)) l key

unfoldable pub allow : Limiter → Text → ℕ → M Verdict
unfolding limit
allow l key max = do count ← kv_incr key; limit l key max count
