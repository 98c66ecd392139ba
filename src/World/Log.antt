-- ===== src/World/Log.antt =====
-- The statements on the database that the handlers of internal/pingclaw send, as steps from tables to
-- tables, and programs whose effect on the database is a sequence of such steps.
pub mod Constraints
use pingclaw_server.Prelude.{
  ℕ, ◌≡◌, Bool, true, false, Option, some, Text, if◌then◌else◌, Bool-cases, Option-cases, inl, inr,
}
use pingclaw_server.Prelude.Int.{ℤ}
use pingclaw_server.Db.{
  Db, Destination, insert_user, insert_identity, insert_token, delete_tokens, touch_user,
  touch_token, delete_user, upsert_webhook, delete_webhook, upsert_destination, delete_destination,
}
use pingclaw_server.World.{
  World, M, pure, ◌>>=◌, now, kv_get, kv_set, kv_get_del, kv_del, kv_incr, kv_expire, kv_ttl,
  db_query, db_exec, attempt, and_then, transaction,
}

-- A statement that concerns a user of whom `Who` holds.
pub data Statement (Who : Text → Type 0) : (ℕ → Db → Option Db) → Type 0 where
  create_user : (id : Text) → Who id → Statement Who (λ time. insert_user time id)
  link_identity : (p s id : Text) → Who id → Statement Who (λ time. insert_identity time p s id)
  issue_token :
      (hash id kind label : Text)
      → Who id
      → Statement Who (λ time. insert_token time hash id kind label)
  revoke_tokens : (id kind : Text) → Who id → Statement Who (λ time. delete_tokens id kind)
  stamp_user : (id : Text) → Who id → Statement Who (λ time. touch_user time id)
  use_token : (hash : Text) → Statement Who (λ time. touch_token time hash)
  remove_user : (id : Text) → Who id → Statement Who (λ time. delete_user id)
  set_webhook :
      (id url secret : Text) → Who id → Statement Who (λ time. upsert_webhook time id url secret)
  remove_webhook : (id : Text) → Who id → Statement Who (λ time. delete_webhook id)
  set_gateway :
      (d : Destination) → Who d.user_id → Statement Who (λ time. upsert_destination time d)
  remove_gateway : (id : Text) → Who id → Statement Who (λ time. delete_destination id)

module _ (Who : Text → Type 0) where
  -- Tables after a sequence of statements that were not refused.
  pub data Log (db : Db) : Db → Type 0 where
    unchanged : Log db db
    did :
        {db' db'' : Db}
        → Log db db'
        → (f : ℕ → Db → Option Db) (time : ℕ) → Statement Who f
        → f time db' ≡ some db''
        → Log db db''

  pub Log-trans : {a b c : Db} → Log a b → Log b c → Log a c
  Log-trans p unchanged = p
  Log-trans p (did q f time s e) = did (Log-trans p q) f time s e

  pub record IsLogged {A : Type 0} (m : World → A × World) : Type 0 where
    pub at : (w : World) → Log w.db (m w).1.db

  module _ {A : Type 0} where
    pub pure-IsLogged : (a : A) → IsLogged (pure a)
    pure-IsLogged a = record { at = λ w. unchanged }

    pub if-IsLogged :
        (c : Bool) (m k : World → A × World)
        → IsLogged m
        → IsLogged k
        → IsLogged (if c then m else k)
    if-IsLogged true m k p q = p
    if-IsLogged false m k p q = q

    pub db_query-IsLogged : (f : Db → A) → IsLogged (db_query f)
    unfolding db_query
    db_query-IsLogged f = record { at = λ w. unchanged }

  pub bind-IsLogged :
      {A B : Type 0} (m : World → A × World) (f : A → World → B × World)
      → IsLogged m
      → ((a : A) → IsLogged (f a))
      → IsLogged (m >>= f)
  bind-IsLogged m f p q = record { at = λ w. Log-trans (p.at w) ((q (m w).0).at (m w).1) }

  pub now-IsLogged : IsLogged now
  now-IsLogged = record { at = λ w. unchanged }

  pub kv_get-IsLogged : (k : Text) → IsLogged (kv_get k)
  unfolding kv_get
  kv_get-IsLogged k = record { at = λ w. unchanged }

  pub kv_set-IsLogged : (k v : Text) (d : ℤ) → IsLogged (kv_set k v d)
  unfolding kv_set
  kv_set-IsLogged k v d = record { at = λ w. unchanged }

  pub kv_get_del-IsLogged : (k : Text) → IsLogged (kv_get_del k)
  unfolding kv_get_del
  kv_get_del-IsLogged k = record { at = λ w. unchanged }

  pub kv_del-IsLogged : (k : Text) → IsLogged (kv_del k)
  unfolding kv_del
  kv_del-IsLogged k = record { at = λ w. unchanged }

  pub kv_incr-IsLogged : (k : Text) → IsLogged (kv_incr k)
  unfolding kv_incr
  kv_incr-IsLogged k = record { at = λ w. unchanged }

  pub kv_expire-IsLogged : (k : Text) (d : ℤ) → IsLogged (kv_expire k d)
  unfolding kv_expire
  kv_expire-IsLogged k d = record { at = λ w. unchanged }

  pub kv_ttl-IsLogged : (k : Text) → IsLogged (kv_ttl k)
  unfolding kv_ttl
  kv_ttl-IsLogged k = record { at = λ w. unchanged }

  pub attempt-IsLogged : IsLogged attempt
  unfolding attempt
  attempt-IsLogged = record { at = λ w. unchanged }

  pub db_exec-IsLogged : (f : ℕ → Db → Option Db) → Statement Who f → IsLogged (db_exec f)
  unfolding db_exec
  db_exec-IsLogged f s = record {
    at = λ w. elim (Bool-cases (w.works 0)) [
      | inr down ↦ rw down unchanged
      | inl up ↦ elim (Option-cases (f w.clock w.db)) [
        | inl refused ↦ rw (up, refused) unchanged
        | inr (db', e) ↦ rw (up, e) (did unchanged f w.clock s e)
      ]
    ];
  }

  pub and_then-IsLogged : (m k : M Bool) → IsLogged m → IsLogged k → IsLogged (and_then m k)
  and_then-IsLogged m k p q = record {
    at = λ w. elim (Bool-cases (m w).0) [
      | inl ok ↦ rw ok (Log-trans (p.at w) (q.at (m w).1))
      | inr failed ↦ rw failed (p.at w)
    ];
  }

  pub transaction-IsLogged : (m : M Bool) → IsLogged m → IsLogged (transaction m)
  transaction-IsLogged m p = record {
    at = λ w. elim (Bool-cases (m w).0) [
      | inl ok ↦ rw ok (p.at w)
      | inr undone ↦ rw undone unchanged
    ];
  }

pub ruleset statement_rules = (
  create_user, link_identity, issue_token, revoke_tokens, stamp_user, use_token, remove_user,
  set_webhook, remove_webhook, set_gateway, remove_gateway,
)

pub ruleset log_rules = (
  pure-IsLogged, if-IsLogged, bind-IsLogged, now-IsLogged, kv_get-IsLogged, kv_set-IsLogged,
  kv_get_del-IsLogged, kv_del-IsLogged, kv_incr-IsLogged, kv_expire-IsLogged, kv_ttl-IsLogged,
  db_query-IsLogged, db_exec-IsLogged, attempt-IsLogged, and_then-IsLogged, transaction-IsLogged,
  statement_rules,
)
