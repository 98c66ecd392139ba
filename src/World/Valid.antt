-- ===== src/World/Valid.antt =====
-- Programs of database statements, such as the transaction of rotateToken, and the constraints of
-- the tables.
use pingclaw_server.Prelude.{ℕ, Bool, Option, Bool-cases, Option-cases, inl, inr}
use pingclaw_server.Db.{Db}
use pingclaw_server.Db.Keys.{IsValid, Keeps}
use pingclaw_server.World.{World, M, db_exec, attempt, and_then, transaction}

pub record KeepsDb (m : M Bool) : Type 0 where
  pub at : (w : World) → IsValid w.db → IsValid (m w).1.db

pub db_exec-KeepsDb : (f : ℕ → Db → Option Db) → ((now : ℕ) → Keeps (f now)) → KeepsDb (db_exec f)
unfolding db_exec
db_exec-KeepsDb f keeps = record {
  at = λ w v. elim (Bool-cases (w.works 0)) [
    | inl up ↦ rw up (elim (Option-cases (f w.clock w.db)) [
      | inl e ↦ rw e v
      | inr (db', e) ↦ rw e (rw e at ((keeps w.clock).at w.db v))
    ])
    | inr down ↦ rw down v
  ];
}

pub attempt-KeepsDb : KeepsDb attempt
unfolding attempt
attempt-KeepsDb = record { at = λ w v. v }

pub and_then-KeepsDb : (m k : M Bool) → KeepsDb m → KeepsDb k → KeepsDb (and_then m k)
and_then-KeepsDb m k hm hk = record {
  at = λ w v. elim (Bool-cases (m w).0) [
    | inl e ↦ rw e (hk.at (m w).1 (hm.at w v))
    | inr e ↦ rw e (hm.at w v)
  ];
}

pub transaction-KeepsDb : (m : M Bool) → KeepsDb m → KeepsDb (transaction m)
transaction-KeepsDb m hm = record {
  at = λ w v. elim (Bool-cases (m w).0) [ inl e ↦ rw e (hm.at w v) | inr e ↦ rw e v ];
}

pub ruleset valid_rules = (db_exec-KeepsDb, attempt-KeepsDb, and_then-KeepsDb, transaction-KeepsDb)
