-- ===== src/Memstore/Refines.antt =====
-- MemStore (internal/kvstore/memstore.go) against the abstract store, call by call.
use pingclaw_server.Prelude.{
  ℕ, ◌≤◌, ◌≡◌, refl, ap₂, Option, none, some, inl, inr, Option-cases, List, [], ◌∷◌, arith, Text,
  ==_iff,
}
use pingclaw_server.Prelude.Int.{ℤ}
use pingclaw_server.Kv
use pingclaw_server.Kv.{Kv, live, Entry}
use pingclaw_server.Kv.Calls
use pingclaw_server.Kv.Calls.{
  Call, Output, get, get_del, del, incr, ttl, set, expire, cleanup, reply, number, done, Ascending,
}
use pingclaw_server.Memstore
use pingclaw_server.Memstore.{Memstore}
use pingclaw_server.Memstore.Table.{
  lookup, Distinct, lookup-delete, lookup-store, lookup-delete_where, delete-Distinct,
  store-Distinct, delete_where-Distinct,
}

-- One method call of the program's store, or one round of its cleanup goroutine.
unfoldable pub step : ℕ → Call → Memstore → Output × Memstore
step now (get k) s = let (r, s') = Memstore.get now k s in (reply r, s')
step now (get_del k) s = let (r, s') = Memstore.get_del now k s in (reply r, s')
step now (del k) s = (done, Memstore.del k s)
step now (incr k) s = let (n, s') = Memstore.incr now k s in (number n, s')
step now (ttl k) s = (number (Memstore.ttl now k s), s)
step now (set k v d) s = (done, Memstore.set now k v d s)
step now (expire k d) s = (done, Memstore.expire now k d s)
step now cleanup s = (done, Memstore.cleanup now s)

unfoldable pub run : List (ℕ × Call) → Memstore → List Output
run [] s = []
run ((now, c) ∷ cs) s = (step now c s).0 ∷ run cs (step now c s).1

-- The store holds, of what has not expired, exactly what the abstract map holds.
pub record Represents (now : ℕ) (s : Memstore) (m : Kv) : Type 0 where
  pub distinct : Distinct s.entries
  pub at_key : (k : Text) → live now (lookup k s.entries) ≡ live now (m k)

live-live :
    (now later : ℕ) (o : Option Entry) → now ≤ later → live later (live now o) ≡ live later o
live-live now later o h = ground arith

-- What represents a map goes on doing so as time passes.
Represents-later :
    {now later : ℕ} {s : Memstore} {m : Kv}
    → now ≤ later
    → Represents now s m
    → Represents later s m
Represents-later {now} {later} {s} {m} h r = record {
  distinct = r.distinct;
  at_key =
      λ k. cc (r.at_key k, live-live now later (lookup k s.entries) h, live-live now later (m k) h);
}

-- One call: the same output, and states that still correspond.
abbrev Matches : ℕ → Output × Memstore → Output × Kv → Type 0
Matches now (o, s) (o', m) = (o ≡ o') × Represents now s m

module _ (now : ℕ) (s : Memstore) (m : Kv) (r : Represents now s m) where
  get-Matches : (k : Text) → Matches now (step now (get k) s) (Calls.step now (get k) m)
  unfolding step Calls.step Memstore.get Kv.get
  get-Matches k = (
    ground (arith, r.at_key k),
    record {
      distinct = ground (arith, r.distinct, delete-Distinct k s.entries r.distinct);
      at_key = λ j. ground (arith, r.at_key k, r.at_key j, lookup-delete k j s.entries, ==_iff k j);
    },
  )

  get_del-Matches : (k : Text) → Matches now (step now (get_del k) s) (Calls.step now (get_del k) m)
  unfolding step Calls.step Memstore.get_del Kv.get_del
  get_del-Matches k = (
    ground (arith, r.at_key k),
    record {
      distinct = ground (arith, delete-Distinct k s.entries r.distinct);
      at_key = λ j. ground (arith, r.at_key k, r.at_key j, lookup-delete k j s.entries, ==_iff k j);
    },
  )

  del-Matches : (k : Text) → Matches now (step now (del k) s) (Calls.step now (del k) m)
  unfolding step Calls.step Memstore.del Kv.del
  del-Matches k = (
    refl,
    record {
      distinct = delete-Distinct k s.entries r.distinct;
      at_key = λ j. ground (arith, r.at_key j, lookup-delete k j s.entries);
    },
  )

  incr-Matches : (k : Text) → Matches now (step now (incr k) s) (Calls.step now (incr k) m)
  unfolding step Calls.step Memstore.incr Kv.incr
  incr-Matches k = (
    ground (arith, r.at_key k),
    record {
      distinct = ground (
        arith,
        r.distinct,
        store-Distinct k (Kv.recount (live now (lookup k s.entries))) s.entries r.distinct,
        store-Distinct k (Kv.recount none) s.entries r.distinct,
      );
      at_key = λ j. ground (
        arith,
        r.at_key k,
        r.at_key j,
        lookup-store k j (Kv.recount (live now (lookup k s.entries))) s.entries,
        lookup-store k j (Kv.recount none) s.entries,
      );
    },
  )

  ttl-Matches : (k : Text) → Matches now (step now (ttl k) s) (Calls.step now (ttl k) m)
  unfolding step Calls.step Memstore.ttl Kv.ttl
  ttl-Matches k = (ground (arith, r.at_key k), r)

  set-Matches :
      (k v : Text) (d : ℤ) → Matches now (step now (set k v d) s) (Calls.step now (set k v d) m)
  unfolding step Calls.step Memstore.set Kv.set
  set-Matches k v d = (
    refl,
    record {
      distinct = store-Distinct k (Memstore.new_entry now v d) s.entries r.distinct;
      at_key =
          λ j. ground (arith, r.at_key j, lookup-store k j (Memstore.new_entry now v d) s.entries);
    },
  )

  expire-Matches :
      (k : Text) (d : ℤ) → Matches now (step now (expire k d) s) (Calls.step now (expire k d) m)
  unfolding step Calls.step Memstore.expire Kv.expire
  expire-Matches k d = elim (Option-cases (live now (lookup k s.entries))) [
    | inl e ↦ (
      refl,
      record {
        distinct = ground arith;
        at_key = λ j. ground (arith, r.at_key k, r.at_key j, ==_iff k j);
      },
    )
    | inr (x, e) ↦ (
      refl,
      record {
        distinct = ground (
          arith,
          store-Distinct k (record x { expires_at = some (Kv.after now d) }) s.entries r.distinct,
        );
        at_key = λ j. ground (
          arith,
          r.at_key k,
          r.at_key j,
          lookup-store k j (record x { expires_at = some (Kv.after now d) }) s.entries,
        );
      },
    )
  ]

  cleanup-Matches : Matches now (step now cleanup s) (Calls.step now cleanup m)
  unfolding step Calls.step Memstore.cleanup
  cleanup-Matches = (
    refl,
    record {
      distinct = ground (arith, delete_where-Distinct (λ e. Kv.expired e now) s.entries r.distinct);
      at_key = λ k.
          ground
            (arith, r.at_key k, lookup-delete_where (λ e. Kv.expired e now) k s.entries r.distinct);
    },
  )

  step-Matches : (c : Call) → Matches now (step now c s) (Calls.step now c m)
  step-Matches (get k) = get-Matches k
  step-Matches (get_del k) = get_del-Matches k
  step-Matches (del k) = del-Matches k
  step-Matches (incr k) = incr-Matches k
  step-Matches (ttl k) = ttl-Matches k
  step-Matches (set k v d) = set-Matches k v d
  step-Matches (expire k d) = expire-Matches k d
  step-Matches cleanup = cleanup-Matches

run-Matches :
    (t : ℕ) (cs : List (ℕ × Call)) (s : Memstore) (m : Kv)
    → Represents t s m
    → Ascending t cs
    → run cs s ≡ Calls.run cs m
unfolding run Calls.run
run-Matches t [] s m r a = refl
run-Matches t ((now, c) ∷ cs) s m r (h, a) =
    let matched = step-Matches now s m (Represents-later h r) c in
    ap₂ ◌∷◌ matched.0 (run-Matches now cs _ _ matched.1 a)

-- A fresh store answers every sequence of calls, with rounds of the cleanup goroutine anywhere
-- among them, exactly as the abstract store does, provided that the clock does not go back.
pub run-refines :
    (t : ℕ) (cs : List (ℕ × Call))
    → Ascending t cs
    → run cs Memstore.new_memstore ≡ Calls.run cs Calls.empty
unfolding Memstore.new_memstore Calls.empty lookup
run-refines t cs a = run-Matches t cs _ _ (record { distinct = tt; at_key = λ k. refl }) a
