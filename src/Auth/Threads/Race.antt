-- ===== src/Auth/Threads/Race.antt =====
-- A rotation between the lookup of a token and the caching of its session: rotateToken and
-- requireAuthKinds of internal/pingclaw/handlers.go, interleaved.
use pingclaw_server.Prelude.{ℕ, Bool, List, Text}
use pingclaw_server.Db.{Token}
use pingclaw_server.World.{World, turn, kv_set}
use pingclaw_server.World.Laws.{IsHealthy}
use pingclaw_server.Auth.{
  auth_cache_key, auth_cache_ttl, cached_value, forget, hashes_of, replace_tokens,
}
use pingclaw_server.Auth.Threads.{Pc}

-- The three threads and the world that they share.
module _ (w : World) (threads : ℕ → Pc) (hash : Text) (t : Token) (new_hash : Text) (later : ℕ)
    (u : IsHealthy w) where
  abbrev w1 : World
  w1 = turn w

  abbrev w2 : World
  w2 = turn w1

  abbrev w3 : World
  w3 = turn w2

  abbrev old_hashes : List Text
  old_hashes = hashes_of t.user_id t.kind w.db

  abbrev replaced : Bool × World
  replaced = replace_tokens t.user_id t.kind new_hash w3

  abbrev w5 : World
  w5 = (forget old_hashes replaced.1).1

  abbrev w6 : World
  w6 = (kv_set (auth_cache_key hash) (cached_value t.user_id t.kind) auth_cache_ttl w5).1
