-- ===== src/World.antt =====
-- What a handler works on: the clock, the key-value store, the database, and a schedule that says
-- of each call of either, in turn, whether it works. A call that fails changes nothing and
-- returns an error.
pub mod Laws
pub mod Valid
pub mod Log
use pingclaw_server.Prelude.{
  ℕ, zero, suc, Bool, true, false, Option, none, some, List, [], ◌∷◌, Text, if◌then◌else◌,
}
use pingclaw_server.Prelude.Int.{ℤ}
use pingclaw_server.Kv
use pingclaw_server.Kv.{Kv, Reply, failed}
use pingclaw_server.Db.{Db}

pub record World : Type 0 where
  pub clock : ℕ
  pub works : ℕ → Bool
  pub kv : Kv
  pub db : Db

abbrev pub M {ℓ} : Type ℓ → Type ℓ
M A = World → A × World

module _ {ℓ κ} {A : Type ℓ} {B : Type κ} where
  infixl 5 ◌>>=◌ ◌>>◌
  abbrev pub ◌>>=◌ : (World → A × World) → (A → World → B × World) → World → B × World
  ◌>>=◌ m f w = let (a, w') = m w in f a w'

  abbrev pub ◌>>◌ : (World → A × World) → (World → B × World) → World → B × World
  m >> k = m >>= λ _. k

module _ {ℓ} {A : Type ℓ} where
  abbrev pub pure : A → World → A × World
  pure a w = (a, w)

abbrev pub now : M ℕ
now w = (w.clock, w)

-- The world at another time.
abbrev pub at : ℕ → World → World
at t w = record w { clock = t }

-- The rest of the schedule.
abbrev pub turn : World → World
turn w = record w { works = λ n. w.works (suc n) }

unfoldable pub kv_get : Text → M (Reply Text)
unfolding Kv.get
kv_get k w = (if w.works 0 then Kv.get w.clock k w.kv else failed, turn w)

unfoldable pub kv_set : Text → Text → ℤ → M Bool
unfolding Kv.set
kv_set k v d w =
    (w.works 0, record (turn w) { kv = if w.works 0 then Kv.set w.clock k v d w.kv else w.kv })

unfoldable pub kv_get_del : Text → M (Reply Text)
unfolding Kv.get_del
kv_get_del k w = (
  if w.works 0 then (Kv.get_del w.clock k w.kv).0 else failed,
  record (turn w) { kv = if w.works 0 then (Kv.get_del w.clock k w.kv).1 else w.kv },
)

unfoldable pub kv_del : Text → M Bool
unfolding Kv.del
kv_del k w = (w.works 0, record (turn w) { kv = if w.works 0 then Kv.del k w.kv else w.kv })

unfoldable pub kv_incr : Text → M (Option ℤ)
unfolding Kv.incr
kv_incr k w = (
  if w.works 0 then some (Kv.incr w.clock k w.kv).0 else none,
  record (turn w) { kv = if w.works 0 then (Kv.incr w.clock k w.kv).1 else w.kv },
)

unfoldable pub kv_expire : Text → ℤ → M Bool
unfolding Kv.expire
kv_expire k d w =
    (w.works 0, record (turn w) { kv = if w.works 0 then Kv.expire w.clock k d w.kv else w.kv })

unfoldable pub kv_ttl : Text → M (Option ℤ)
unfolding Kv.ttl
kv_ttl k w = (if w.works 0 then some (Kv.ttl w.clock k w.kv) else none, turn w)

-- A SELECT; `none` is an error of the database.
unfoldable pub db_query {ℓ} : {A : Type ℓ} → (Db → A) → World → Option A × World
db_query f w = (if w.works 0 then some (f w.db) else none, turn w)

abbrev applied : Option Db → Db → Bool × Db
applied none db = (false, db)
applied (some db') db = (true, db')

-- A statement that writes.
unfoldable pub db_exec : (ℕ → Db → Option Db) → M Bool
db_exec f w = (
  if w.works 0 then (applied (f w.clock w.db) w.db).0 else false,
  record (turn w) { db = if w.works 0 then (applied (f w.clock w.db) w.db).1 else w.db },
)

-- A call of the outside whose result the schedule decides: BEGIN, COMMIT.
unfoldable pub attempt : M Bool
attempt w = (w.works 0, turn w)

-- Statements of a transaction, each only if those before it worked.
abbrev pub and_then : M Bool → M Bool → M Bool
and_then m k w = let (ok, w') = m w in if ok then k w' else (false, w')

-- `defer tx.Rollback()`: what did not commit is undone.
abbrev pub transaction : M Bool → M Bool
transaction body w = let (ok, w') = body w in (ok, if ok then w' else record w' { db = w.db })
