-- ===== src/RateLimit/Window.antt =====
-- The events of one window of Allow (internal/ratelimit/limiter.go).
use pingclaw_server.Prelude.{
  ℕ, ◌+◌, ◌≤◌, ◌<◌, ◌≡◌, refl, Bool, none, some, arith, Text, ==_iff, leb, List, [], ◌∷◌, ap₂,
  length, All,
}
use pingclaw_server.Prelude.Int.{pos}
use pingclaw_server.Text.Number.{format_int, max_int64}
use pingclaw_server.Text.Number.RoundTrip.{parse_int-format_int}
use pingclaw_server.Kv.{Entry, live}
use pingclaw_server.World.{World, at, kv_incr, kv_expire, kv_ttl}
use pingclaw_server.World.Laws.{IsHealthy}
use pingclaw_server.RateLimit.Frame.{allow-IsHealthy}
use pingclaw_server.RateLimit.{Limiter, allow}

-- The entry of a key that has counted `n` events and whose window ends at a time.
abbrev pub counting : ℕ → ℕ → Entry
counting n end = record { value = format_int (pos n); expires_at = some end }

module _ (window max : ℕ) (key : Text) where
  abbrev limiter : Limiter
  limiter = record { window = pos window }

  -- The first event of a window starts the count at one and sets the deadline.
  pub allow_first :
      (w : World)
      → IsHealthy w
      → live w.clock (w.kv key) ≡ none
      → ((allow limiter key max w).0.allowed ≡ leb 1 max)
        × ((allow limiter key max w).1.kv key ≡ some (counting 1 (w.clock + window)))
  unfolding allow kv_incr kv_expire kv_ttl format_int
  allow_first w h e = ground (arith, h.up 0, h.up 1, h.up 2, ==_iff key key)

  -- A later event within the window counts one more and keeps the deadline.
  pub allow_next :
      (w : World) (n end : ℕ)
      → IsHealthy w
      → w.kv key ≡ some (counting n end)
      → w.clock ≤ end
      → 0 < n
      → n < max_int64
      → ((allow limiter key max w).0.allowed ≡ leb (n + 1) max)
        × ((allow limiter key max w).1.kv key ≡ some (counting (n + 1) end))
  unfolding allow kv_incr kv_expire kv_ttl
  allow_next w n end h e t p q =
      ground (arith, h.up 0, h.up 1, ==_iff key key, parse_int-format_int (pos n))

-- Events of one key at given times, and whether each is allowed.
pub attempts : Limiter → Text → ℕ → List ℕ → World → List Bool
attempts l key max [] w = []
attempts l key max (t ∷ ts) w =
    (allow l key max (at t w)).0.allowed ∷ attempts l key max ts (allow l key max (at t w)).1

-- The events of a window, numbered from one: the first `max` are allowed.
pub first_allowed : ℕ → ℕ → List ℕ → List Bool
first_allowed max n [] = []
first_allowed max n (t ∷ ts) = leb (n + 1) max ∷ first_allowed max (n + 1) ts

pub IsHealthy-at : {w : World} (t : ℕ) → IsHealthy w → IsHealthy (at t w)
IsHealthy-at t h = record { up = h.up }

module _ (window max : ℕ) (key : Text) where
  abbrev hourly : Limiter
  hourly = record { window = pos window }

  attempts-counting :
      (ts : List ℕ) (w : World) (n end : ℕ)
      → IsHealthy w
      → w.kv key ≡ some (counting n end)
      → 0 < n
      → n + length ts ≤ max_int64
      → All (λ t. t ≤ end) ts
      → attempts hourly key max ts w ≡ first_allowed max n ts
  unfolding attempts first_allowed
  attempts-counting [] w n end h e p q within = refl
  attempts-counting (t ∷ ts) w n end h e p q (in_time, within) =
      let next =
        allow_next window max key (at t w) n end (IsHealthy-at t h) e in_time p (omega arith) in
      ap₂ ◌∷◌ next.0 (
        attempts-counting ts _ (n + 1) end
          (allow-IsHealthy hourly max key (at t w) (IsHealthy-at t h)) next.1 (omega arith)
          (omega arith) within)

  -- From a key with no live count, while the store works: of the events up to the end of the window
  -- that the first one opens, exactly the first `max` are allowed.
  pub attempts_window :
      (t : ℕ) (ts : List ℕ) (w : World)
      → IsHealthy w
      → live t (w.kv key) ≡ none
      → 1 + length ts ≤ max_int64
      → All (λ u. u ≤ t + window) ts
      → attempts hourly key max (t ∷ ts) w ≡ first_allowed max 0 (t ∷ ts)
  unfolding attempts first_allowed
  attempts_window t ts w h e q within =
      let first = allow_first window max key (at t w) (IsHealthy-at t h) e in
      ap₂ ◌∷◌ first.0 (
        attempts-counting ts _ 1 (t + window)
          (allow-IsHealthy hourly max key (at t w) (IsHealthy-at t h)) first.1 (omega arith) q
          within)
