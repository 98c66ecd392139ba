-- ===== src/Auth/Cache.antt =====
-- The cache of authenticated tokens in requireAuthKinds of internal/pingclaw/handlers.go, against
-- the table of tokens.
use pingclaw_server.Prelude.{
  ℕ, ◌≡◌, refl, true, Option, none, some, List, [], ◌∷◌, arith, Text, codes, ==_iff, if◌then◌else◌,
  Bool-cases, ◌⊎◌, inl, inr,
}
use pingclaw_server.Text.{has_prefix, trim_prefix, cut_last}
use pingclaw_server.Text.Cut.{lacks, cut_last-append}
use pingclaw_server.Kv.{Entry, live, found}
use pingclaw_server.Db.{Db, Token, token_with, is_kind, token_key}
use pingclaw_server.Db.Table.{All-find_by}
use pingclaw_server.Db.Keys.{IsValid, IsSound}
use pingclaw_server.World.{World, kv_get, kv_set, db_query, db_exec}
use pingclaw_server.World.Laws.{IsHealthy}
use pingclaw_server.Http.{write_error}
use pingclaw_server.Token.{Env, hash_token}
use pingclaw_server.Auth.{
  auth_cache_key, cached_value, Checked, rejected, admitted, session_of, cached_session, restrict,
  bearer, check_auth, check_hash,
}

-- A live cache entry names the user and the kind of a token that the database holds.
abbrev pub Agrees : Option Entry → Option Token → Type 0
Agrees none t = Unit {0}
Agrees (some e) none = ⊥
Agrees (some e) (some t) = e.value ≡ cached_value t.user_id t.kind

pub record IsCoherent (w : World) : Type 0 where
  pub valid : IsValid w.db
  pub agrees :
      (hash : Text) → Agrees (live w.clock (w.kv (auth_cache_key hash))) (token_with hash w.db)

-- The middleware without a cache.
abbrev checked_row : Option Token → Checked
checked_row none = rejected (write_error 401 "invalid token")
checked_row (some t) = admitted (record { user_id = t.user_id; kind = t.kind })

abbrev pub uncached_check : Env → List Text → Text → Db → Checked
uncached_check env kinds authorization db =
    if has_prefix authorization bearer
    then restrict kinds
        (checked_row (token_with (hash_token env (trim_prefix authorization bearer)) db))
    else rejected (write_error 401 "missing token")

kind_lacks_colon : (k : Text) → is_kind k ≡ true → lacks b':' k ≡ true
kind_lacks_colon k h = ground (
  arith,
  ==_iff k (codes "web_session"),
  ==_iff k (codes "api_key"),
  ==_iff k (codes "pairing_token"),
)

-- Reading back the value that the middleware cached gives the session, unless the user id is empty.
pub session_of-cached_value :
    (c : ℕ) (user kind : Text)
    → is_kind kind ≡ true
    → session_of (cut_last b':' (cached_value (c ∷ user) kind))
      ≡ some (record { user_id = c ∷ user; kind = kind })
session_of-cached_value c user kind h =
    rw (cut_last-append b':' (c ∷ user) kind (kind_lacks_colon kind h))

pub token_kind :
    (db : Db) (hash : Text) {t : Token}
    → IsValid db
    → token_with hash db ≡ some t
    → is_kind t.kind ≡ true
token_kind db hash v e = (All-find_by (IsSound db.users) token_key hash db.tokens v.token_rows e).1

-- What the cache yields for a token of the database: its session, or nothing.
pub cached_hit :
    (e : Entry) (user kind : Text)
    → is_kind kind ≡ true
    → e.value ≡ cached_value user kind
    → (cached_session (found e.value) ≡ some (record { user_id = user; kind = kind }))
      ⊎ (cached_session (found e.value) ≡ none)
cached_hit e [] kind h p = inr (rw p (rw (cut_last-append b':' [] kind (kind_lacks_colon kind h))))
cached_hit e (c ∷ user) kind h p = inl (rw p (session_of-cached_value c user kind h))

module _ (kinds : List Text) (hash : Text) (w : World) (h : IsHealthy w) where
  check_hash_miss :
      live w.clock (w.kv (auth_cache_key hash)) ≡ none
      → (check_hash kinds hash w).0 ≡ restrict kinds (checked_row (token_with hash w.db))
  unfolding check_hash kv_get db_query kv_set db_exec
  check_hash_miss e = ground (arith, h.up 0, h.up 1)

  check_hash_hit :
      (e : Entry) (t : Token)
      → live w.clock (w.kv (auth_cache_key hash)) ≡ some e
      → token_with hash w.db ≡ some t
      → (cached_session (found e.value) ≡ some (record { user_id = t.user_id; kind = t.kind }))
        ⊎ (cached_session (found e.value) ≡ none)
      → (check_hash kinds hash w).0 ≡ restrict kinds (checked_row (token_with hash w.db))
  unfolding check_hash kv_get db_query kv_set db_exec
  check_hash_hit e t p q s = ground (arith, h.up 0, h.up 1)

  check_hash_cases :
      (live_entry : Option Entry) (row : Option Token)
      → IsValid w.db
      → live w.clock (w.kv (auth_cache_key hash)) ≡ live_entry
      → token_with hash w.db ≡ row
      → Agrees live_entry row
      → (check_hash kinds hash w).0 ≡ restrict kinds (checked_row (token_with hash w.db))
  check_hash_cases none row v p q a = check_hash_miss p
  check_hash_cases (some e) none v p q a = absurd a
  check_hash_cases (some e) (some t) v p q a =
      check_hash_hit e t p q (cached_hit e t.user_id t.kind (token_kind w.db hash v q) a)

-- While every call works and the cache agrees with the database, the middleware accepts and
-- rejects exactly as the lookup of the token in the database alone would: with the same error
-- response, or the same user and kind.
pub check_auth-uncached :
    (env : Env) (kinds : List Text) (authorization : Text) (w : World)
    → IsHealthy w
    → IsCoherent w
    → (check_auth env kinds authorization w).0 ≡ uncached_check env kinds authorization w.db
unfolding check_auth
check_auth-uncached env kinds authorization w h c =
    elim (Bool-cases (has_prefix authorization bearer)) [
      | inl p ↦
          let hash = hash_token env (trim_prefix authorization bearer) in
          rw p (check_hash_cases kinds hash w h _ _ c.valid refl refl (c.agrees hash))
      | inr p ↦ rw p
    ]
