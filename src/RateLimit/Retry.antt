-- ===== src/RateLimit/Retry.antt =====
-- The Retry-After of a refusal by Allow (internal/ratelimit/limiter.go), and a client that heeds it.
use pingclaw_server.Prelude.{
  ℕ, ◌+◌, ◌-◌, ◌*◌, ◌/◌, ◌^◌, ◌≤◌, ◌<◌, ◌≡◌, ◌∙◌, true, false, none, some, arith, Text, ==_iff,
}
use pingclaw_server.Prelude.Int.{pos}
use pingclaw_server.Text.Number.{max_int64}
use pingclaw_server.Text.Number.RoundTrip.{parse_int-format_int}
use pingclaw_server.Kv.{live}
use pingclaw_server.World.{World, at, kv_incr, kv_expire, kv_ttl}
use pingclaw_server.World.Laws.{IsHealthy}
use pingclaw_server.RateLimit.{Limiter, allow}
use pingclaw_server.RateLimit.Frame.{allow-IsHealthy}
use pingclaw_server.RateLimit.Window.{counting, IsHealthy-at, allow_first, allow_next}

-- The whole seconds that are left of the window.
abbrev pub seconds_left : World → ℕ → ℕ
seconds_left w end = (end - w.clock) / 10 ^ 9

module _ (window max : ℕ) (key : Text) where
  abbrev limiter : Limiter
  limiter = record { window = pos window }

  refused :
      (w : World) (n end : ℕ)
      → IsHealthy w
      → w.kv key ≡ some (counting n end)
      → w.clock ≤ end
      → 0 < n
      → n < max_int64
      → max ≤ n
      → (allow limiter key max w).0
        ≡ record { allowed = false; retry_after = pos (seconds_left w end) }
  unfolding allow kv_incr kv_expire kv_ttl
  refused w n end h e t p q over =
      ground (arith, h.up 0, h.up 1, h.up 2, ==_iff key key, parse_int-format_int (pos n))

  -- A client over the limit, while the store works: the refusal names the whole seconds that are left
  -- of the window, which are no more than the window's; a request after exactly that many seconds is
  -- refused again, and one a second or more later is allowed.
  pub refused_until :
      (w : World) (n end later : ℕ)
      → IsHealthy w
      → w.kv key ≡ some (counting n end)
      → w.clock ≤ end
      → end ≤ w.clock + window
      → 0 < n
      → n + 1 < max_int64
      → max ≤ n
      → 1 ≤ max
      → w.clock + (seconds_left w end + 1) * 10 ^ 9 ≤ later
      → ((allow limiter key max w).0
          ≡ record { allowed = false; retry_after = pos (seconds_left w end) })
        × (seconds_left w end ≤ window / 10 ^ 9)
        × ((allow limiter key max
              (at (w.clock + seconds_left w end * 10 ^ 9) (allow limiter key max w).1)).0.allowed
            ≡ false)
        × ((allow limiter key max (at later (allow limiter key max w).1)).0.allowed ≡ true)
  refused_until w n end later h e t within p q over some_max from =
      let counted = (allow_next window max key w n end h e t p (omega arith)).1 in
      let h' = allow-IsHealthy limiter max key w h in
      let early = w.clock + seconds_left w end * 10 ^ 9 in
      let again =
        allow_next window max key (at early (allow limiter key max w).1) (n + 1) end
          (IsHealthy-at early h') counted (omega arith) (omega arith) q in
      let over_then : live later ((allow limiter key max w).1.kv key) ≡ none =
        rw counted (ground arith) in
      let fresh =
        allow_first window max key (at later (allow limiter key max w).1) (IsHealthy-at later h')
          over_then in
      (
        refused w n end h e t p (omega arith) over,
        omega arith,
        again.0 ∙ ground arith,
        fresh.0 ∙ ground arith,
      )
