-- ===== src/Kv/Calls.antt =====
-- The calls that a client can make of a store, and the outputs that it sees: the abstract store
-- as a machine, which an implementation has to match call by call.
use pingclaw_server.Prelude.{ℕ, ◌≤◌, none, List, [], ◌∷◌, Text}
use pingclaw_server.Prelude.Int.{ℤ}
use pingclaw_server.Kv
use pingclaw_server.Kv.{Kv, Reply}

pub data Call : Type 0 where
  get get_del del incr ttl : Text → Call
  set : Text → Text → ℤ → Call
  expire : Text → ℤ → Call
  cleanup : Call

pub data Output : Type 0 where
  reply : Reply Text → Output
  number : ℤ → Output
  done : Output

unfoldable pub empty : Kv
empty k = none

-- A round of eviction is none of the client's business.
unfoldable pub step : ℕ → Call → Kv → Output × Kv
step now (get k) m = (reply (Kv.get now k m), m)
step now (get_del k) m = let (r, m') = Kv.get_del now k m in (reply r, m')
step now (del k) m = (done, Kv.del k m)
step now (incr k) m = let (n, m') = Kv.incr now k m in (number n, m')
step now (ttl k) m = (number (Kv.ttl now k m), m)
step now (set k v d) m = (done, Kv.set now k v d m)
step now (expire k d) m = (done, Kv.expire now k d m)
step now cleanup m = (done, m)

unfoldable pub run : List (ℕ × Call) → Kv → List Output
run [] m = []
run ((now, c) ∷ cs) m = (step now c m).0 ∷ run cs (step now c m).1

-- The clock does not go back.
abbrev pub Ascending : ℕ → List (ℕ × Call) → Type 0
Ascending t [] = Unit {0}
Ascending t ((now, c) ∷ cs) = (t ≤ now) × Ascending now cs
