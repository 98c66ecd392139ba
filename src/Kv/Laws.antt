-- ===== src/Kv/Laws.antt =====
-- The operations of KVStore (internal/kvstore/kvstore.go) together.
use pingclaw_server.Prelude.{ℕ, ◌+◌, ◌<◌, ◌≡◌, ltb, arith, Text, ==_iff, if◌then◌else◌}
use pingclaw_server.Prelude.Int.{pos}
use pingclaw_server.Kv.{Kv, found, key_not_found, get, set}

-- A value that was set with a positive time to live is there until the deadline, the deadline
-- included, and gone after it.
pub get-set_exact :
    (k v : Text) (now ttl later : ℕ) (m : Kv)
    → 0 < ttl
    → get later k (set now k v (pos ttl) m)
      ≡ (if ltb (now + ttl) later then key_not_found else found v)
unfolding get set
get-set_exact k v now ttl later m h = ground (arith, ==_iff k k)
