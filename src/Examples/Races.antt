-- ===== src/Examples/Races.antt =====
-- Threads of the middleware and a rotation on the concrete server.
use pingclaw_server.Prelude.{
  ℕ, ◌+◌, ◌*◌, ◌^◌, ◌≡◌, refl, some, ◌⊎◌, ◌≤◌, Text, codes, nat_beq, if◌then◌else◌,
}
use pingclaw_server.Kv.{Entry, with_ttl, get}
use pingclaw_server.Db.{touch_token}
use pingclaw_server.World.{kv_get, kv_set, db_query, db_exec}
use pingclaw_server.Auth.{cached_value, auth_cache_ttl, auth_cache_key}
use pingclaw_server.Auth.Threads.{
  Pc, get_cache, get_hashes, accepted, session_for, step, System, moved, move, Reach, here, next,
}
use pingclaw_server.Auth.Threads.Origin.{AllHonest, accepted_issued}
use pingclaw_server.Auth.Threads.Expiry.{cache_short_lived}
use pingclaw_server.Examples.{alice, api_key, key_row, world}

abbrev hash : Text
hash = codes "616b5f3030"

abbrev start : System
start = record { world = world; threads = λ i. get_cache hash }

-- The first thread runs to its end.
abbrev finish : System
finish = moved 0 (moved 0 (moved 0 (moved 0 start)))

finished : Reach start finish
finished = next (next (next (next here (move 0)) (move 0)) (move 0)) (move 0)

-- Only this token was issued.
abbrev Issued : Text → Text → Text → Type 0
Issued h user kind = (h ≡ hash) × (user ≡ alice) × (kind ≡ api_key)

start-AllHonest : AllHonest Issued start
start-AllHonest = record {
  world = record { rows = ((refl, (refl, refl, refl)), tt); cache = λ h e p. absurd (cc) };
  threads = λ i. tt;
}

finish_accepted : finish.threads 0 ≡ accepted hash (session_for key_row)
unfolding step kv_get get db_query kv_set db_exec touch_token
finish_accepted = refl

finish_clock : finish.world.clock ≡ 1000
unfolding step kv_get db_query kv_set db_exec
finish_clock = refl

accepted_issued_example : (hash ≡ hash) × (alice ≡ alice) × (api_key ≡ api_key)
accepted_issued_example =
    accepted_issued Issued start finish 0 hash (session_for key_row) start-AllHonest finished
      finish_accepted

-- What the middleware left in the cache.
abbrev entry : Entry
entry = with_ttl 1000 (cached_value alice api_key) auth_cache_ttl

finish_cached : finish.world.kv (auth_cache_key hash) ≡ some entry
unfolding step kv_get get db_query kv_set db_exec touch_token
finish_cached = refl

cache_short_lived_example :
    (start.world.kv (auth_cache_key hash) ≡ some entry)
    ⊎ ((ends : ℕ) × (entry.expires_at ≡ some ends) × (ends ≤ finish.world.clock + 300 * 10 ^ 9))
cache_short_lived_example = cache_short_lived start finish hash entry finished finish_cached

abbrev new_hash : Text
new_hash = codes "61"

abbrev racing : ℕ → Pc
racing i = if nat_beq i 1 then get_hashes alice api_key new_hash else get_cache hash
