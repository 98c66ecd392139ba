-- ===== src/Auth/Threads.antt =====
-- requireAuthKinds and rotateToken of internal/pingclaw/handlers.go as the goroutines that they are
-- in the server: a thread makes one call of the store or the database in a step, and the threads'
-- steps interleave. The transaction of rotateToken is one step, since the database commits it as one.
pub mod Paths
pub mod Expiry
pub mod Honest
pub mod Origin
pub mod Race
use pingclaw_server.Prelude.{
  ℕ, ◌≤◌, Bool, true, false, Option, none, some, List, [], ◌∷◌, Text, nat_beq, if◌then◌else◌,
}
use pingclaw_server.Db.{Token, token_with, touch_token}
use pingclaw_server.World.{World, at, kv_get, kv_set, kv_del, db_query, db_exec}
use pingclaw_server.Http.{Response, write_error}
use pingclaw_server.Auth.{
  Session, auth_cache_key, auth_cache_ttl, cached_value, cached_session, hashes_of, or_empty,
  replace_tokens,
}

-- Where a thread stands: the call that it makes next, or how it ended.
pub data Pc : Type 0 where
  idle : Pc
  get_cache query_row : Text → Pc
  set_cache touch_row : Text → Token → Pc
  accepted : Text → Session → Pc
  refused : Text → Response → Pc
  get_hashes : Text → Text → Text → Pc
  replace : Text → Text → Text → List Text → Pc
  drop_caches : List Text → Pc

abbrev pub session_for : Token → Session
session_for t = record { user_id = t.user_id; kind = t.kind }

abbrev pub after_get : Text → Option Session → Pc
after_get hash none = query_row hash
after_get hash (some s) = accepted hash s

abbrev pub after_query : Text → Option (Option Token) → Pc
after_query hash none = refused hash (write_error 500 "internal error")
after_query hash (some none) = refused hash (write_error 401 "invalid token")
after_query hash (some (some t)) = set_cache hash t

-- One step; a thread that has ended stays as it is.
unfoldable pub step : Pc → World → Pc × World
step idle w = (idle, w)
step (get_cache hash) w =
    let (r, w') = kv_get (auth_cache_key hash) w in (after_get hash (cached_session r), w')
step (query_row hash) w = let (r, w') = db_query (token_with hash) w in (after_query hash r, w')
step (set_cache hash t) w = (
  touch_row hash t,
  (kv_set (auth_cache_key hash) (cached_value t.user_id t.kind) auth_cache_ttl w).1,
)
step (touch_row hash t) w =
    (accepted hash (session_for t), (db_exec (λ now. touch_token now hash) w).1)
step (accepted hash s) w = (accepted hash s, w)
step (refused hash r) w = (refused hash r, w)
step (get_hashes user_id kind hash) w =
    let (old, w') = db_query (hashes_of user_id kind) w in
    (replace user_id kind hash (or_empty old), w')
step (replace user_id kind hash old) w =
    let (done, w') = replace_tokens user_id kind hash w in
    (if done then drop_caches old else idle, w')
step (drop_caches []) w = (idle, w)
step (drop_caches (hash ∷ old)) w = (drop_caches old, (kv_del (auth_cache_key hash) w).1)

pub record System : Type 0 where
  pub world : World
  pub threads : ℕ → Pc

abbrev pub put : ℕ → Pc → (ℕ → Pc) → ℕ → Pc
put i p threads j = if nat_beq i j then p else threads j

abbrev pub moved : ℕ → System → System
moved i s = record {
  world = (step (s.threads i) s.world).1;
  threads = put i (step (s.threads i) s.world).0 s.threads;
}

-- A thread makes a step, or time passes.
pub data Step (s : System) : System → Type 0 where
  move : (i : ℕ) → Step s (moved i s)
  wait : (t : ℕ) → s.world.clock ≤ t → Step s (record s { world = at t s.world })

pub data Reach (s : System) : System → Type 0 where
  here : Reach s s
  next : {t u : System} → Reach s t → Step t u → Reach s u
