-- ===== src/Examples/Start.antt =====
-- The rate limiter at the end of a window, and the start of the server, at concrete values.
use pingclaw_server.Prelude.{
  ℕ, ◌+◌, ◌*◌, ◌^◌, ◌/◌, ◌≤◌, ◌≡◌, refl, true, false, some, arith, Text, codes, leb,
}
use pingclaw_server.Prelude.Int.{pos}
use pingclaw_server.World.{World, at}
use pingclaw_server.RateLimit.{Limiter, allow}
use pingclaw_server.RateLimit.Window.{counting}
use pingclaw_server.RateLimit.Retry.{seconds_left, refused_until}
use pingclaw_server.Server.Queries.{postgres_now, rewrite_query, occurs, rewrite_query_clean}
use pingclaw_server.Server.Wait.{Ping, Outcome, second, patience, wait_for, end_of, wait_for_ends}
use pingclaw_server.Examples.{world}

abbrev key : Text
key = codes "k"

-- One event was counted in a window that ends in 30 seconds and a half.
abbrev ending : ℕ
ending = 1000 + 305 * 10 ^ 8

abbrev counted : World
counted = record world { kv = λ k. some (counting 1 ending) }

abbrev each_minute : Limiter
each_minute = record { window = pos (60 * 10 ^ 9) }

abbrev refused : World
refused = (allow each_minute key 1 counted).1

refused_until_example :
    ((allow each_minute key 1 counted).0
      ≡ record { allowed = false; retry_after = pos (seconds_left counted ending) })
    × (seconds_left counted ending ≤ 60 * 10 ^ 9 / 10 ^ 9)
    × ((allow each_minute key 1
          (at (1000 + seconds_left counted ending * 10 ^ 9) refused)).0.allowed
        ≡ false)
    × ((allow each_minute key 1 (at (1000 + 31 * 10 ^ 9) refused)).0.allowed ≡ true)
refused_until_example =
    refused_until (60 * 10 ^ 9) 1 key counted 1 ending (1000 + 31 * 10 ^ 9)
      (record { up = λ n. refl }) refl (omega arith) (omega arith) (omega arith) (omega arith)
      (omega arith) (omega arith) (omega arith)

rewrite_query_clean_example :
    (occurs postgres_now (rewrite_query (codes "SELECT now()")) ≡ false)
    × (rewrite_query (rewrite_query (codes "SELECT now()")) ≡ rewrite_query (codes "SELECT now()"))
rewrite_query_clean_example = rewrite_query_clean (codes "SELECT now()")

-- A database that answers from the fifth second on.
abbrev slow_start : ℕ → Ping
slow_start t = record { works = leb (5 * second) t; takes = 10 }

wait_for_ends_example :
    (r : Outcome) × (wait_for slow_start 0 ≡ some r) × (end_of r ≤ 0 + patience + 10)
wait_for_ends_example = wait_for_ends slow_start 10 0 (λ t. omega arith)
