-- ===== src/Account/Deletion.antt =====
-- DeleteAccount of internal/pingclaw/handlers.go, and requests that bear a token of the deleted
-- user.
use pingclaw_server.Prelude.{
  suc, ◌≡◌, ◌∙◌, refl, Bool, true, not, Option, none, some, List, arith, Text, ◌==◌, ==_iff,
  if◌then◌else◌, Bool-cases, inl, inr,
}
use pingclaw_server.Text.{has_prefix, trim_prefix}
use pingclaw_server.Kv.{Entry, live}
use pingclaw_server.Db.{Db, Token, token_with, token_key, delete_user}
use pingclaw_server.Db.Table.{select, find_by, keep, find_by-select}
use pingclaw_server.Db.Keys.{IsValid, delete_user-Keeps}
use pingclaw_server.World.{World, turn, kv_del, db_query, db_exec}
use pingclaw_server.World.Laws.{IsHealthy}
use pingclaw_server.Http.{write_error}
use pingclaw_server.Token.{Env, hash_token}
use pingclaw_server.Auth.{Session, auth_cache_key, rejected, bearer, check_auth, forget, or_empty}
use pingclaw_server.Auth.Cache.{Agrees, IsCoherent, check_auth-uncached}
use pingclaw_server.Auth.Rotation.{forget-db, forget-frame}
use pingclaw_server.Auth.Forgotten.{
  member, member-hashes, forget-kv, forget-clock, forget-IsHealthy, live-forgotten,
  Agrees-forgotten, Agrees-kept,
}
use pingclaw_server.Integration.{integration_key}
use pingclaw_server.Account.{
  delete_account, hashes_of_user, location_key, webhook_cache_key, openclaw_dest_cache_key,
}

abbrev others : Text → Token → Bool
others user_id t = not (t.user_id == user_id)

find_by-others :
    (user_id h : Text) (db : Db)
    → IsValid db
    → find_by token_key h (select (others user_id) db.tokens)
      ≡ keep (others user_id) (token_with h db)
find_by-others user_id h db v = find_by-select token_key (others user_id) h db.tokens v.token_keys

-- One hash after the deletion: the cache entry, unless it was forgotten, agrees with the row.
Agrees-deleted :
    (user_id h : Text) (db : Db) (entry : Option Entry) (old : Option Token)
    → IsValid db
    → token_with h db ≡ old
    → Agrees entry old
    → Agrees
        (if member h (hashes_of_user user_id db) then none else entry)
        (find_by token_key h (select (others user_id) db.tokens))
Agrees-deleted user_id h db none old v e a = Agrees-forgotten _ _
Agrees-deleted user_id h db (some entry) none v e a = absurd a
Agrees-deleted user_id h db (some entry) (some t) v e a = elim (Bool-cases (t.user_id == user_id)) [
  | inl owned ↦ rw (member-hashes (λ r. r.user_id == user_id) h db.tokens e owned) tt
  | inr foreign ↦
      rw (find_by-others user_id h db v, e, foreign)
        (Agrees-kept (member h (hashes_of_user user_id db)) (some entry) (some t) a)
]

-- The tables after the deletion.
abbrev pub erased : Text → Db → Db
erased user_id db = record {
  users = select (λ r. not (r.user_id == user_id)) db.users;
  identities = select (λ r. not (r.user_id == user_id)) db.identities;
  tokens = select (λ r. not (r.user_id == user_id)) db.tokens;
  webhooks = select (λ r. not (r.user_id == user_id)) db.webhooks;
  destinations = select (λ r. not (r.user_id == user_id)) db.destinations;
}

module _ (s : Session) (w : World) (u : IsHealthy w) where
  abbrev forgotten : World
  forgotten = (forget (hashes_of_user s.user_id w.db) (turn w)).1

  abbrev gone : World
  gone = (delete_account s w).1

  IsHealthy-forgotten : IsHealthy forgotten
  IsHealthy-forgotten =
      forget-IsHealthy (hashes_of_user s.user_id w.db) (turn w) (record { up = λ n. u.up (suc n) })

  gone-db : gone.db ≡ erased s.user_id w.db
  unfolding delete_account db_query kv_del db_exec delete_user
  gone-db =
      ground (
        arith,
        u.up 0,
        IsHealthy-forgotten.up 3,
        forget-db (hashes_of_user s.user_id w.db) (turn w),
      )

  gone-status : (delete_account s w).0.status ≡ 200
  unfolding delete_account db_query kv_del db_exec delete_user
  gone-status = ground (arith, u.up 0, IsHealthy-forgotten.up 3)

  pub gone-clock : gone.clock ≡ w.clock
  unfolding delete_account db_query kv_del db_exec
  gone-clock = ground (arith, u.up 0, forget-clock (hashes_of_user s.user_id w.db) (turn w))

  pub gone-IsHealthy : IsHealthy gone
  unfolding delete_account db_query kv_del db_exec
  gone-IsHealthy =
      rw (u.up 0) (record { up = λ n. IsHealthy-forgotten.up (suc (suc (suc (suc n)))) })

  gone-auth :
      (h : Text)
      → gone.kv (auth_cache_key h)
        ≡ (if member h (hashes_of_user s.user_id w.db) then none else w.kv (auth_cache_key h))
  unfolding delete_account db_query kv_del db_exec
  gone-auth h =
      rw (u.up 0, IsHealthy-forgotten.up 0, IsHealthy-forgotten.up 1, IsHealthy-forgotten.up 2)
        (forget-kv (hashes_of_user s.user_id w.db) (turn w) h (record { up = λ n. u.up (suc n) }))

  gone-caches :
      (gone.kv (location_key s.user_id) ≡ none)
      × (gone.kv (webhook_cache_key s.user_id) ≡ none)
      × (gone.kv (openclaw_dest_cache_key s.user_id) ≡ none)
  unfolding delete_account db_query kv_del db_exec
  gone-caches = ground (
    arith,
    u.up 0,
    IsHealthy-forgotten.up 0,
    IsHealthy-forgotten.up 1,
    IsHealthy-forgotten.up 2,
    ==_iff s.user_id s.user_id,
  )

  pub gone-IsCoherent : IsCoherent w → IsCoherent gone
  gone-IsCoherent c = record {
    valid = rw gone-db (unfold delete_user in ((delete_user-Keeps s.user_id).at w.db c.valid));
    agrees = λ h.
        rw (gone-auth h, gone-clock, gone-db, live-forgotten)
          (Agrees-deleted s.user_id h w.db (live w.clock (w.kv (auth_cache_key h)))
            (token_with h w.db) c.valid refl (c.agrees h));
  }

-- While every call works, deleting an account answers 200, removes every row of the user from every
-- table and no row of anyone else, and takes the user's location and the two cached destinations
-- out of the store.
pub delete_account_erases :
    (s : Session) (w : World)
    → IsHealthy w
    → ((delete_account s w).0.status ≡ 200)
      × ((delete_account s w).1.db ≡ erased s.user_id w.db)
      × ((delete_account s w).1.kv (location_key s.user_id) ≡ none)
      × ((delete_account s w).1.kv (webhook_cache_key s.user_id) ≡ none)
      × ((delete_account s w).1.kv (openclaw_dest_cache_key s.user_id) ≡ none)
delete_account_erases s w u = (
  gone-status s w u,
  gone-db s w u,
  (gone-caches s w u).0,
  (gone-caches s w u).1,
  (gone-caches s w u).2,
)

-- After an account was deleted, while every call works and if the cache agreed with the database
-- before, a request that bears any token that the user had is rejected with 401.
pub delete_account_revokes :
    (env : Env) (kinds : List Text) (authorization : Text) (s : Session) (w : World) (t : Token)
    → IsHealthy w
    → IsCoherent w
    → has_prefix authorization bearer ≡ true
    → token_with (hash_token env (trim_prefix authorization bearer)) w.db ≡ some t
    → t.user_id ≡ s.user_id
    → (check_auth env kinds authorization (delete_account s w).1).0
      ≡ rejected (write_error 401 "invalid token")
delete_account_revokes env kinds authorization s w t u c b e owner =
    let h = hash_token env (trim_prefix authorization bearer) in
    check_auth-uncached env kinds authorization (gone s w u) (gone-IsHealthy s w u)
      (gone-IsCoherent s w u c)
    ∙ rw (
      b,
      gone-db s w u,
      find_by-others s.user_id h w.db c.valid,
      e,
      (==_iff t.user_id s.user_id).1 owner,
    )

-- Under any schedule of failures, deleting an account leaves the times of last activity of its
-- integrations in the store.
pub delete_account_keeps_activity :
    (s : Session) (kind : Text) (w : World)
    → (delete_account s w).1.kv (integration_key s.user_id kind)
      ≡ w.kv (integration_key s.user_id kind)
unfolding delete_account db_query kv_del db_exec
delete_account_keeps_activity s kind w = ground (
  arith,
  forget-frame (or_empty (if w.works 0 then some (hashes_of_user s.user_id w.db) else none))
      (turn w) (integration_key s.user_id kind) (λ h. refl),
)
