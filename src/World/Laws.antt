-- ===== src/World/Laws.antt =====
-- A world in which every call works, and programs that use the database alone, such as the
-- transaction of rotateToken.
use pingclaw_server.Prelude.{ℕ, suc, ◌≡◌, refl, ◌∙◌, Bool, true, Option, Bool-cases, inl, inr}
use pingclaw_server.Db.{Db}
use pingclaw_server.World.{World, M, db_exec, attempt, and_then, transaction}

pub record IsHealthy (w : World) : Type 0 where
  pub up : (n : ℕ) → w.works n ≡ true

-- The clock, the store and the health of the calls after a program that only uses the database.
pub record IsDbOnly (m : M Bool) : Type 0 where
  pub same_kv : (w : World) → (m w).1.kv ≡ w.kv
  pub same_clock : (w : World) → (m w).1.clock ≡ w.clock
  pub healthy : (w : World) → IsHealthy w → IsHealthy (m w).1

pub db_exec-IsDbOnly : (f : ℕ → Db → Option Db) → IsDbOnly (db_exec f)
unfolding db_exec
db_exec-IsDbOnly f = record {
  same_kv = λ w. refl;
  same_clock = λ w. refl;
  healthy = λ w h. record { up = λ n. h.up (suc n) };
}

pub attempt-IsDbOnly : IsDbOnly attempt
unfolding attempt
attempt-IsDbOnly = record {
  same_kv = λ w. refl;
  same_clock = λ w. refl;
  healthy = λ w h. record { up = λ n. h.up (suc n) };
}

pub and_then-IsDbOnly : (m k : M Bool) → IsDbOnly m → IsDbOnly k → IsDbOnly (and_then m k)
and_then-IsDbOnly m k hm hk = record {
  same_kv = λ w. elim (Bool-cases (m w).0) [
    | inl e ↦ rw e (hk.same_kv (m w).1 ∙ hm.same_kv w)
    | inr e ↦ rw e (hm.same_kv w)
  ];
  same_clock = λ w. elim (Bool-cases (m w).0) [
    | inl e ↦ rw e (hk.same_clock (m w).1 ∙ hm.same_clock w)
    | inr e ↦ rw e (hm.same_clock w)
  ];
  healthy = λ w h. elim (Bool-cases (m w).0) [
    | inl e ↦ rw e (hk.healthy (m w).1 (hm.healthy w h))
    | inr e ↦ rw e (hm.healthy w h)
  ];
}

pub transaction-IsDbOnly : (m : M Bool) → IsDbOnly m → IsDbOnly (transaction m)
transaction-IsDbOnly m hm = record {
  same_kv =
      λ w. elim (Bool-cases (m w).0) [ inl e ↦ rw e (hm.same_kv w) | inr e ↦ rw e (hm.same_kv w) ];
  same_clock = λ w. elim (Bool-cases (m w).0) [
    | inl e ↦ rw e (hm.same_clock w)
    | inr e ↦ rw e (hm.same_clock w)
  ];
  healthy = λ w h. elim (Bool-cases (m w).0) [
    | inl e ↦ rw e (hm.healthy w h)
    | inr e ↦ rw e (record { up = λ n. (hm.healthy w h).up n })
  ];
}

pub ruleset db_only_rules =
    (db_exec-IsDbOnly, attempt-IsDbOnly, and_then-IsDbOnly, transaction-IsDbOnly)
