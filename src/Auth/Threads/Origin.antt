-- ===== src/Auth/Threads/Origin.antt =====
-- The sessions of the threads in every reachable state of requireAuthKinds
-- and rotateToken (internal/pingclaw/handlers.go).
use pingclaw_server.Prelude.{ℕ, ◌≤◌, ◌≡◌, arith, Text, nat_beq, Bool-cases, inl, inr}
use pingclaw_server.Kv.{Entry}
use pingclaw_server.Auth.{Session}
use pingclaw_server.Auth.Threads.{accepted, System, moved, Step, move, wait, Reach, here, next}
use pingclaw_server.Auth.Threads.Honest.{
  IsOwed, IsHonest, IsHonestPc, step-IsHonest, step-IsHonestPc,
}

module _ (Issued : Text → Text → Text → Type 0) where
  -- Every row, cache entry and thread goes back to a token that was issued.
  pub record AllHonest (s : System) : Type 0 where
    pub world : IsHonest Issued s.world
    pub threads : (i : ℕ) → IsHonestPc Issued (s.threads i)

  moved-AllHonest : (i : ℕ) (s : System) → AllHonest s → AllHonest (moved i s)
  moved-AllHonest i s h = record {
    world = step-IsHonest Issued (s.threads i) s.world h.world (h.threads i);
    threads = λ j. elim (Bool-cases (nat_beq i j)) [
      | inl same ↦ rw same (step-IsHonestPc Issued (s.threads i) s.world h.world (h.threads i))
      | inr other ↦ rw other (h.threads j)
    ];
  }

  IsOwed-later :
      (now later : ℕ) (hash : Text) (e : Entry)
      → now ≤ later
      → IsOwed Issued now hash e
      → IsOwed Issued later hash e
  IsOwed-later now later hash e p o = record {
    user_id = o.user_id;
    kind = o.kind;
    ends = o.ends;
    value = o.value;
    known = o.known;
    issued = o.issued;
    expiry = o.expiry;
    soon = omega (arith, o.soon);
  }

  Step-AllHonest : {s t : System} → Step s t → AllHonest s → AllHonest t
  Step-AllHonest {s} (move i) h = moved-AllHonest i s h
  Step-AllHonest {s} (wait t p) h = record {
    world = record {
      rows = h.world.rows;
      cache = λ hash e q. IsOwed-later s.world.clock t hash e p (h.world.cache hash e q);
    };
    threads = h.threads;
  }

  Reach-AllHonest : {s t : System} → Reach s t → AllHonest s → AllHonest t
  Reach-AllHonest here h = h
  Reach-AllHonest (next r st) h = Step-AllHonest st (Reach-AllHonest r h)

-- However the threads interleave and whichever calls fail: a thread that was accepted as a user with
-- a kind of token presented one that was issued to that user as one of that kind, if the tables and
-- the cache held only such tokens at the start and the rotations insert only such tokens.
pub accepted_issued :
    (Issued : Text → Text → Text → Type 0) (s t : System) (i : ℕ) (hash : Text) (session : Session)
    → AllHonest Issued s
    → Reach s t
    → t.threads i ≡ accepted hash session
    → Issued hash session.user_id session.kind
accepted_issued Issued s t i hash session h r e = rw e at ((Reach-AllHonest Issued r h).threads i)
