-- ===== src/RedisStore.antt =====
-- internal/kvstore/redis.go: RedisStore, whose methods are calls of the Redis client. The client is
-- given by what its commands reply.
use pingclaw_server.Prelude.{Bool, true, false, Option, none, some, Text}
use pingclaw_server.Prelude.Int.{ℤ}
use pingclaw_server.Kv.{Reply, found, key_not_found, failed}

-- The error of a command: none, redis.Nil or another.
pub data Err : Type 0 where
  no_error redis_nil other : Err

-- The commands on a state of the server; a result comes beside its error, as in Go.
pub record Client (R : Type 0) : Type 0 where
  pub get : Text → R → Text × Err × R
  pub set : Text → Text → ℤ → R → Err × R
  pub get_del : Text → R → Text × Err × R
  pub del : Text → R → Err × R
  pub incr : Text → R → ℤ × Err × R
  pub expire : Text → ℤ → R → Err × R
  pub ttl : Text → R → ℤ × Err × R

-- redis.Nil becomes ErrKeyNotFound.
abbrev pub as_reply : Text → Err → Reply Text
as_reply v no_error = found v
as_reply v redis_nil = key_not_found
as_reply v other = failed

abbrev as_done : Err → Bool
as_done no_error = true
as_done redis_nil = false
as_done other = false

abbrev as_number : ℤ → Err → Option ℤ
as_number n no_error = some n
as_number n redis_nil = none
as_number n other = none

module _ {R : Type 0} (client : Client R) where
  unfoldable pub get : Text → R → Reply Text × R
  get k r = let (v, e, r') = client.get k r in (as_reply v e, r')

  unfoldable pub set : Text → Text → ℤ → R → Bool × R
  set k v ttl r = let (e, r') = client.set k v ttl r in (as_done e, r')

  unfoldable pub get_del : Text → R → Reply Text × R
  get_del k r = let (v, e, r') = client.get_del k r in (as_reply v e, r')

  unfoldable pub del : Text → R → Bool × R
  del k r = let (e, r') = client.del k r in (as_done e, r')

  unfoldable pub incr : Text → R → Option ℤ × R
  incr k r = let (n, e, r') = client.incr k r in (as_number n e, r')

  unfoldable pub expire : Text → ℤ → R → Bool × R
  expire k ttl r = let (e, r') = client.expire k ttl r in (as_done e, r')

  unfoldable pub ttl : Text → R → Option ℤ × R
  ttl k r = let (n, e, r') = client.ttl k r in (as_number n e, r')
