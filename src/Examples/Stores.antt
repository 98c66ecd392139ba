-- ===== src/Examples/Stores.antt =====
-- The stores, the rate limiter and the texts at concrete values.
use pingclaw_server.Prelude.{ℕ, ◌≡◌, refl, List, [], ◌∷◌, arith, Text, codes}
use pingclaw_server.Prelude.Int.{pos}
use pingclaw_server.Kv
use pingclaw_server.Kv.{Kv, found, key_not_found, counted, live}
use pingclaw_server.Kv.Calls
use pingclaw_server.Memstore
use pingclaw_server.Memstore.Refines
use pingclaw_server.Memstore.Refines.{run-refines}
use pingclaw_server.RateLimit.{Limiter}
use pingclaw_server.RateLimit.Window.{attempts, first_allowed, attempts_window}
use pingclaw_server.Examples.{world, world-IsHealthy}

abbrev key : Text
key = codes "k"

abbrev calls : List (ℕ × Kv.Calls.Call)
calls =
    (1, Kv.Calls.set key (codes "v") (pos 5))
    ∷ (2, Kv.Calls.get key)
    ∷ (9, Kv.Calls.cleanup)
    ∷ (9, Kv.Calls.incr key)
    ∷ []

run-refines_example :
    Memstore.Refines.run calls Memstore.new_memstore ≡ Kv.Calls.run calls Kv.Calls.empty
run-refines_example =
    run-refines 0 calls (omega arith, (omega arith, (omega arith, (omega arith, tt))))

abbrev limiter : Limiter
limiter = record { window = pos 60 }

attempts_window_example :
    attempts limiter key 2 (1000 ∷ 1001 ∷ 1002 ∷ []) world
    ≡ first_allowed 2 0 (1000 ∷ 1001 ∷ 1002 ∷ [])
attempts_window_example =
    attempts_window 60 2 key 1000 (1001 ∷ 1002 ∷ []) world world-IsHealthy refl (omega arith)
      (omega arith, (omega arith, tt))
