-- ===== src/Auth/Traced/Tokens.antt =====
-- requireAuthKinds and rotateToken (internal/pingclaw/handlers.go) as programs that send only
-- statements about certain users and keep the authentication cache in agreement with the tables.
use pingclaw_server.Prelude.{
  sym, ℕ, suc, ◌≡◌, refl, Option, none, some, List, arith, Text, ◌==◌, ==_iff, if◌then◌else◌,
  Bool-cases, inl, inr, subst,
}
use pingclaw_server.Kv.{Entry, with_ttl, live, set}
use pingclaw_server.Db.{Db, Token, token_with, touch_token}
use pingclaw_server.World.{World, turn, now, kv_set, db_query, db_exec}
use pingclaw_server.Db.Single.{OneEach, replaced-OneEach}
use pingclaw_server.Auth.Rotation.{new_row, rotate_token_atomic}
use pingclaw_server.World.Laws.{IsHealthy}
use pingclaw_server.World.Log.{use_token}
use pingclaw_server.Token.{Env, hash_token, generate_token}
use pingclaw_server.Auth.{
  Session, auth_cache_key, auth_cache_ttl, cached_value, load_session, identify, check_hash,
  check_auth, rotate_token,
}
use pingclaw_server.Auth.Cache.{Agrees, IsCoherent}
use pingclaw_server.Auth.Coherence.{
  rotate_token-clock, rotate_token-IsCoherent, rotate_token-IsHealthy,
}
use pingclaw_server.Auth.Logged.{identify-IsLogged, rotate_token-IsLogged}
use pingclaw_server.Auth.Faithful.{IsFaithful, db_exec-IsFaithful}
use pingclaw_server.Auth.Traced.{IsTraced, traced_rules}

-- What the middleware caches of a token.
abbrev cache_entry : ℕ → Token → Entry
cache_entry now t = with_ttl now (cached_value t.user_id t.kind) auth_cache_ttl

cache_entry-live :
    (now : ℕ) (t : Token) → live now (some (cache_entry now t)) ≡ some (cache_entry now t)
cache_entry-live now t = ground arith

module _ (hash : Text) (w : World) (h : IsHealthy w) (c : IsCoherent w) where
  -- Caching the row of a token that the table has just shown.
  cached-IsCoherent :
      (t : Token)
      → token_with hash w.db ≡ some t
      → IsCoherent (kv_set (auth_cache_key hash) (cached_value t.user_id t.kind) auth_cache_ttl w).1
  unfolding kv_set set
  cached-IsCoherent t e = record {
    valid = c.valid;
    agrees = λ j. elim (Bool-cases (hash == j)) [
      | inr other ↦ rw (h.up 0) (rw other (c.agrees j))
      | inl same ↦ rw (h.up 0) (
          rw (same, cache_entry-live w.clock t)
            (subst (λ k. Agrees (some (cache_entry w.clock t)) (token_with k w.db))
              ((==_iff hash j).0 same) (rw e refl)))
    ];
  }

load_session-IsHealthy :
    (hash : Text) (row : Option (Option Token)) (w : World)
    → IsHealthy w
    → IsHealthy (load_session hash row w).1
unfolding load_session kv_set db_exec
load_session-IsHealthy hash none w h = h
load_session-IsHealthy hash (some none) w h = h
load_session-IsHealthy hash (some (some t)) w h = record { up = λ n. h.up (suc (suc n)) }

load_session-clock :
    (hash : Text) (row : Option (Option Token)) (w : World)
    → (load_session hash row w).1.clock ≡ w.clock
unfolding load_session kv_set db_exec
load_session-clock hash none w = refl
load_session-clock hash (some none) w = refl
load_session-clock hash (some (some t)) w = refl

load_session-OneEach :
    (hash : Text) (row : Option (Option Token)) (w : World)
    → OneEach w.db.tokens
    → OneEach (load_session hash row w).1.db.tokens
unfolding load_session
load_session-OneEach hash none w o = o
load_session-OneEach hash (some none) w o = o
load_session-OneEach hash (some (some t)) w o =
    (db_exec-IsFaithful {Who = λ id. Unit {0}} (λ now. touch_token now hash) (use_token hash)
        refl).one_each
      (kv_set (auth_cache_key hash) (cached_value t.user_id t.kind) auth_cache_ttl w).1
      (unfold kv_set in o)

-- Whatever fails, a rotation replaces a token or leaves all as they were.
rotate_token-OneEach :
    (env : Env) (bytes : List ℕ) (user_id kind prefix : Text) (w : World)
    → OneEach w.db.tokens
    → OneEach (rotate_token env bytes user_id kind prefix w).1.db.tokens
rotate_token-OneEach env bytes user_id kind prefix w o =
    elim (rotate_token_atomic env bytes user_id kind prefix w) [
      | inl (done, tokens) ↦ subst OneEach (sym tokens) (
          replaced-OneEach (new_row w (hash_token env (generate_token prefix bytes)) user_id kind)
            w.db.tokens o)
      | inr (failed, same, kept) ↦ subst (λ (db : Db). OneEach db.tokens) (sym same) o
    ]

load_session-IsCoherent :
    (hash : Text) (row : Option Token) (w : World)
    → IsHealthy w
    → IsCoherent w
    → token_with hash w.db ≡ row
    → IsCoherent (load_session hash (some row) w).1
unfolding load_session
load_session-IsCoherent hash none w h c e = c
load_session-IsCoherent hash (some t) w h c e =
    let cached : World =
      (kv_set (auth_cache_key hash) (cached_value t.user_id t.kind) auth_cache_ttl w).1 in
    (db_exec-IsFaithful {Who = λ id. Unit {0}} (λ now. touch_token now hash) (use_token hash)
        refl).coherent
      cached (unfold kv_set in record { up = λ n. h.up (suc n) }) (cached-IsCoherent hash w h c t e)

identify-IsFaithful : (hash : Text) (s : Option Session) → IsFaithful (identify hash s)
unfolding identify db_query
identify-IsFaithful hash (some s) = record {
  healthy = λ w h. h;
  coherent = λ w h c. c;
  same_clock = λ w. refl;
  one_each = λ w o. o;
}
identify-IsFaithful hash none = record {
  one_each = λ w o.
      load_session-OneEach hash (if w.works 0 then some (token_with hash w.db) else none) (turn w)
        o;
  same_clock = λ w.
      load_session-clock hash (if w.works 0 then some (token_with hash w.db) else none) (turn w);
  healthy = λ w h.
      load_session-IsHealthy hash (if w.works 0 then some (token_with hash w.db) else none) (turn w)
        (record { up = λ n. h.up (suc n) });
  coherent = λ w h c. rw (h.up 0) (
      load_session-IsCoherent hash (token_with hash w.db) (turn w)
        (record { up = λ n. h.up (suc n) }) (record { valid = c.valid; agrees = c.agrees }) refl);
}

module _ (Who : Text → Type 0) where
  identify-IsTraced : (hash : Text) (s : Option Session) → IsTraced Who (identify hash s)
  identify-IsTraced hash s = record {
    logged = identify-IsLogged Who hash s;
    faithful = identify-IsFaithful hash s;
  }

  pub check_auth-IsTraced :
      (env : Env) (kinds : List Text) (authorization : Text)
      → IsTraced Who (check_auth env kinds authorization)
  unfolding check_auth check_hash
  check_auth-IsTraced env kinds authorization = search (traced_rules, identify-IsTraced) depth 12

  pub rotate_token-IsTraced :
      (env : Env) (bytes : List ℕ) (user_id kind prefix : Text)
      → Who user_id
      → IsTraced Who (rotate_token env bytes user_id kind prefix)
  rotate_token-IsTraced env bytes user_id kind prefix p = record {
    logged = rotate_token-IsLogged Who env bytes user_id kind prefix p;
    faithful = record {
      one_each = λ w. rotate_token-OneEach env bytes user_id kind prefix w;
      same_clock = rotate_token-clock env bytes user_id kind prefix;
      healthy = rotate_token-IsHealthy env bytes user_id kind prefix;
      coherent = rotate_token-IsCoherent env bytes user_id kind prefix;
    };
  }
