-- ===== src/Auth/Traced.antt =====
-- Programs that send only statements about certain users and keep the authentication cache of
-- requireAuthKinds (internal/pingclaw/handlers.go) in agreement with the tables.
pub mod Tokens
use pingclaw_server.Prelude.{
  ℕ, suc, ◌≡◌, refl, Bool, true, false, Option, none, some, List, [], ◌∷◌, arith, Text, codes,
  nat_beq, ◌==◌, ==_iff, if◌then◌else◌, Bool-cases, Option-cases, inl, inr, subst,
}
use pingclaw_server.Prelude.Int.{ℤ}
use pingclaw_server.Kv.{Entry, with_ttl, live, set}
use pingclaw_server.Db.{
  Db, Token, Destination, token_with, touch_token, touch_user, insert_user, insert_identity,
  upsert_webhook, delete_webhook, upsert_destination, delete_destination,
}
use pingclaw_server.World.{
  World, pure, ◌>>=◌, turn, now, kv_get, kv_set, kv_get_del, kv_del, kv_incr, kv_expire, kv_ttl,
  db_query, db_exec,
}
use pingclaw_server.World.Laws.{IsHealthy}
use pingclaw_server.World.Log.{
  IsLogged, Statement, pure-IsLogged, bind-IsLogged, now-IsLogged, kv_get-IsLogged, kv_ttl-IsLogged,
  db_query-IsLogged, kv_set-IsLogged, kv_get_del-IsLogged, kv_del-IsLogged, kv_incr-IsLogged,
  kv_expire-IsLogged, db_exec-IsLogged, create_user, link_identity, stamp_user, use_token,
  set_webhook, remove_webhook, set_gateway, remove_gateway,
}
use pingclaw_server.Token.{Env}
use pingclaw_server.Auth.{
  Session, auth_cache_key, auth_cache_ttl, cached_value, load_session, identify, check_hash,
  check_auth, rotate_token,
}
use pingclaw_server.Auth.Cache.{Agrees, IsCoherent}
use pingclaw_server.Auth.Coherence.{
  rotate_token-clock, rotate_token-IsCoherent, rotate_token-IsHealthy,
}
use pingclaw_server.Auth.Logged.{identify-IsLogged, rotate_token-IsLogged}
use pingclaw_server.Auth.Faithful.{
  IsForeign, letter-IsForeign, IsFaithful, bind-IsFaithful, read-IsFaithful, kv_set-IsFaithful,
  kv_get_del-IsFaithful, kv_del-IsFaithful, kv_incr-IsFaithful, kv_expire-IsFaithful,
  db_exec-IsFaithful, harmless,
}

pub record IsTraced (Who : Text → Type 0) {A : Type 0} (m : World → A × World) : Type 0 where
  pub logged : IsLogged Who m
  pub faithful : IsFaithful m

module _ (Who : Text → Type 0) where
  pub pure-IsTraced : {A : Type 0} (a : A) → IsTraced Who (pure a)
  pure-IsTraced a = record {
    logged = pure-IsLogged Who a;
    faithful = record {
      healthy = λ w h. h;
      coherent = λ w h c. c;
      same_clock = λ w. refl;
      one_each = λ w h. h;
    };
  }

  pub if-IsTraced :
      {A : Type 0} (c : Bool) (m k : World → A × World)
      → IsTraced Who m
      → IsTraced Who k
      → IsTraced Who (if c then m else k)
  if-IsTraced true m k p q = p
  if-IsTraced false m k p q = q

  pub bind-IsTraced :
      {A B : Type 0} (m : World → A × World) (f : A → World → B × World)
      → IsTraced Who m
      → ((a : A) → IsTraced Who (f a))
      → IsTraced Who (m >>= f)
  bind-IsTraced m f p q = record {
    logged = bind-IsLogged Who m f p.logged (λ a. (q a).logged);
    faithful = bind-IsFaithful m f p.faithful (λ a. (q a).faithful);
  }

  pub now-IsTraced : IsTraced Who now
  now-IsTraced = record {
    logged = now-IsLogged Who;
    faithful = record {
      healthy = λ w h. h;
      coherent = λ w h c. c;
      same_clock = λ w. refl;
      one_each = λ w h. h;
    };
  }

  pub kv_get-IsTraced : (k : Text) → IsTraced Who (kv_get k)
  unfolding kv_get
  kv_get-IsTraced k = record {
    logged = kv_get-IsLogged Who k;
    faithful =
        read-IsFaithful (kv_get k) (λ w. refl) (λ w. refl) (λ w. refl)
          (λ w h. record { up = λ n. h.up (suc n) });
  }

  pub kv_ttl-IsTraced : (k : Text) → IsTraced Who (kv_ttl k)
  unfolding kv_ttl
  kv_ttl-IsTraced k = record {
    logged = kv_ttl-IsLogged Who k;
    faithful =
        read-IsFaithful (kv_ttl k) (λ w. refl) (λ w. refl) (λ w. refl)
          (λ w h. record { up = λ n. h.up (suc n) });
  }

  pub db_query-IsTraced : {A : Type 0} (f : Db → A) → IsTraced Who (db_query f)
  unfolding db_query
  db_query-IsTraced f = record {
    logged = db_query-IsLogged Who f;
    faithful =
        read-IsFaithful (db_query f) (λ w. refl) (λ w. refl) (λ w. refl)
          (λ w h. record { up = λ n. h.up (suc n) });
  }

  pub kv_set-IsTraced : (k v : Text) (d : ℤ) → IsForeign k → IsTraced Who (kv_set k v d)
  kv_set-IsTraced k v d f = record {
    logged = kv_set-IsLogged Who k v d;
    faithful = kv_set-IsFaithful k f v d;
  }

  pub kv_get_del-IsTraced : (k : Text) → IsForeign k → IsTraced Who (kv_get_del k)
  kv_get_del-IsTraced k f = record {
    logged = kv_get_del-IsLogged Who k;
    faithful = kv_get_del-IsFaithful k f;
  }

  pub kv_del-IsTraced : (k : Text) → IsForeign k → IsTraced Who (kv_del k)
  kv_del-IsTraced k f = record { logged = kv_del-IsLogged Who k; faithful = kv_del-IsFaithful k f }

  pub kv_incr-IsTraced : (k : Text) → IsForeign k → IsTraced Who (kv_incr k)
  kv_incr-IsTraced k f = record {
    logged = kv_incr-IsLogged Who k;
    faithful = kv_incr-IsFaithful k f;
  }

  pub kv_expire-IsTraced : (k : Text) (d : ℤ) → IsForeign k → IsTraced Who (kv_expire k d)
  kv_expire-IsTraced k d f = record {
    logged = kv_expire-IsLogged Who k d;
    faithful = kv_expire-IsFaithful k f d;
  }

  db_exec-IsTraced :
      (f : ℕ → Db → Option Db) (s : Statement Who f) → harmless s ≡ true → IsTraced Who (db_exec f)
  db_exec-IsTraced f s q = record {
    logged = db_exec-IsLogged Who f s;
    faithful = db_exec-IsFaithful f s q;
  }

  pub insert_user-IsTraced :
      (id : Text) → Who id → IsTraced Who (db_exec (λ time. insert_user time id))
  insert_user-IsTraced id p = db_exec-IsTraced _ (create_user id p) refl

  pub insert_identity-IsTraced :
      (p s id : Text) → Who id → IsTraced Who (db_exec (λ time. insert_identity time p s id))
  insert_identity-IsTraced p s id w = db_exec-IsTraced _ (link_identity p s id w) refl

  pub touch_user-IsTraced :
      (id : Text) → Who id → IsTraced Who (db_exec (λ time. touch_user time id))
  touch_user-IsTraced id p = db_exec-IsTraced _ (stamp_user id p) refl

  pub touch_token-IsTraced : (hash : Text) → IsTraced Who (db_exec (λ time. touch_token time hash))
  touch_token-IsTraced hash = db_exec-IsTraced _ (use_token hash) refl

  pub upsert_webhook-IsTraced :
      (id url secret : Text)
      → Who id
      → IsTraced Who (db_exec (λ time. upsert_webhook time id url secret))
  upsert_webhook-IsTraced id url secret p = db_exec-IsTraced _ (set_webhook id url secret p) refl

  pub delete_webhook-IsTraced :
      (id : Text) → Who id → IsTraced Who (db_exec (λ time. delete_webhook id))
  delete_webhook-IsTraced id p = db_exec-IsTraced _ (remove_webhook id p) refl

  pub upsert_destination-IsTraced :
      (d : Destination) → Who d.user_id → IsTraced Who (db_exec (λ time. upsert_destination time d))
  upsert_destination-IsTraced d p = db_exec-IsTraced _ (set_gateway d p) refl

  pub delete_destination-IsTraced :
      (id : Text) → Who id → IsTraced Who (db_exec (λ time. delete_destination id))
  delete_destination-IsTraced id p = db_exec-IsTraced _ (remove_gateway id p) refl

pub ruleset traced_rules = (
  pure-IsTraced, if-IsTraced, bind-IsTraced, now-IsTraced, kv_get-IsTraced, kv_ttl-IsTraced,
  db_query-IsTraced, kv_set-IsTraced, kv_get_del-IsTraced, kv_del-IsTraced, kv_incr-IsTraced,
  kv_expire-IsTraced, insert_user-IsTraced, insert_identity-IsTraced, touch_user-IsTraced,
  touch_token-IsTraced, upsert_webhook-IsTraced, delete_webhook-IsTraced,
  upsert_destination-IsTraced, delete_destination-IsTraced, letter-IsForeign, refl,
)
