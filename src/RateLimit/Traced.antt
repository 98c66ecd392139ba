-- ===== src/RateLimit/Traced.antt =====
-- Allow (internal/ratelimit/limiter.go) and the calls of the store that it makes.
use pingclaw_server.Prelude.{ℕ, Bool, true, false, Option, none, some, Text}
use pingclaw_server.Prelude.Int.{ℤ}
use pingclaw_server.Auth.Faithful.{IsForeign}
use pingclaw_server.Auth.Traced.{IsTraced, traced_rules}
use pingclaw_server.RateLimit.{Limiter, allow, limit, deny_unless}

module _ (Who : Text → Type 0) where
  deny_unless-IsTraced :
      (ok : Bool) (l : Limiter) (key : Text) → IsTraced Who (deny_unless ok l key)
  unfolding deny_unless
  deny_unless-IsTraced true l key = search traced_rules
  deny_unless-IsTraced false l key = search traced_rules depth 6

  limit-IsTraced :
      (l : Limiter) (key : Text) (max : ℕ) (count : Option ℤ)
      → IsForeign key
      → IsTraced Who (limit l key max count)
  unfolding limit
  limit-IsTraced l key max none f = search traced_rules
  limit-IsTraced l key max (some count) f = search (traced_rules, deny_unless-IsTraced) depth 8

  pub allow-IsTraced :
      (l : Limiter) (key : Text) (max : ℕ) → IsForeign key → IsTraced Who (allow l key max)
  unfolding allow
  allow-IsTraced l key max f = search (traced_rules, limit-IsTraced) depth 6
