-- ===== src/RateLimit/Frame.antt =====
-- Single calls of Allow (internal/ratelimit/limiter.go): what they touch, and refusals.
use pingclaw_server.Prelude.{ℕ, suc, ◌≡◌, true, false, arith, Text, ◌==◌}
use pingclaw_server.Prelude.Int.{pos, leb_ℤ}
use pingclaw_server.Kv.{live, counted}
use pingclaw_server.World.{World, kv_incr, kv_expire, kv_ttl}
use pingclaw_server.World.Laws.{IsHealthy}
use pingclaw_server.RateLimit.{Limiter, allow}

module _ (l : Limiter) (max : ℕ) (key : Text) where
  -- The limiter touches its own key only.
  pub allow-frame :
      (w : World) (j : Text) → (key == j) ≡ false → (allow l key max w).1.kv j ≡ w.kv j
  unfolding allow kv_incr kv_expire kv_ttl
  allow-frame w j h = ground arith

  pub allow-db : (w : World) → (allow l key max w).1.db ≡ w.db
  unfolding allow kv_incr kv_expire kv_ttl
  allow-db w = ground arith

  pub allow-clock : (w : World) → (allow l key max w).1.clock ≡ w.clock
  unfolding allow kv_incr kv_expire kv_ttl
  allow-clock w = ground arith

  pub allow-IsHealthy : (w : World) → IsHealthy w → IsHealthy (allow l key max w).1
  unfolding allow kv_incr kv_expire kv_ttl
  allow-IsHealthy w h = record {
    up = λ n. ground (arith, h.up (suc n), h.up (suc (suc n)), h.up (suc (suc (suc n))));
  }

  -- Under any schedule of failures, an event is refused only when the store has counted more events
  -- than the limit.
  pub allow_denied :
      (w : World)
      → (allow l key max w).0.allowed ≡ false
      → (w.works 0 ≡ true) × (leb_ℤ (counted (live w.clock (w.kv key))) (pos max) ≡ false)
  unfolding allow kv_incr kv_expire kv_ttl
  allow_denied w h = ground arith
