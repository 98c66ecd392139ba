-- ===== src/Auth.antt =====
-- Bearer tokens: requireAuthKinds and rotateToken of internal/pingclaw/handlers.go, with the
-- cache of authenticated tokens in the key-value store. The handlers behind the middleware take
-- the user's id and the kind of token that it puts into the request's context.
pub mod Coherence
pub mod Forgotten
pub mod Cache
pub mod Rotation
pub mod Revocation
pub mod Threads
pub mod Logged
pub mod Faithful
pub mod Traced
use pingclaw_server.Prelude.{
  ℕ, ◌*◌, ◌^◌, Bool, true, false, ◌&&◌, ◌||◌, Option, none, some, List, [], ◌∷◌, ◌++◌, map, any,
  Text, codes, if◌then◌else◌, ◌==◌,
}
use pingclaw_server.Prelude.Int.{ℤ, pos}
use pingclaw_server.Text.{has_prefix, trim_prefix, cut_last}
use pingclaw_server.Kv.{Reply, found, key_not_found, failed}
use pingclaw_server.Db.{
  Db, Token, token_with, tokens_of, token_key, delete_tokens, insert_token, touch_user, touch_token,
}
use pingclaw_server.World.{
  World, M, pure, ◌>>=◌, ◌>>◌, kv_get, kv_set, kv_del, db_query, db_exec, attempt, and_then,
  transaction,
}
use pingclaw_server.Http.{Response, write_error}
use pingclaw_server.Token.{Env, hash_token, generate_token}

-- Durations in nanoseconds.
abbrev pub minutes : ℕ → ℤ
minutes n = pos (n * 60 * 10 ^ 9)

abbrev pub auth_cache_ttl : ℤ
auth_cache_ttl = minutes 5

abbrev pub auth_cache_key : Text → Text
auth_cache_key hash = codes "auth:" ++ hash

pub record Session : Type 0 where
  pub user_id : Text
  pub kind : Text

-- The cached value, "user_id:kind".
abbrev pub cached_value : Text → Text → Text
cached_value user_id kind = user_id ++ b':' ∷ kind

-- What the middleware makes of a request: an error response, or a session.
pub data Checked : Type 0 where
  rejected : Response → Checked
  admitted : Session → Checked

-- `i > 0`: an empty user id is no hit.
abbrev pub session_of : Option (Text × Text) → Option Session
session_of none = none
session_of (some ([], kind)) = none
session_of (some (c ∷ user, kind)) = some (record { user_id = c ∷ user; kind = kind })

abbrev pub cached_session : Reply Text → Option Session
cached_session (found v) = session_of (cut_last b':' v)
cached_session key_not_found = none
cached_session failed = none

load_session : Text → Option (Option Token) → M Checked
load_session hash none = pure (rejected (write_error 500 "internal error"))
load_session hash (some none) = pure (rejected (write_error 401 "invalid token"))
load_session hash (some (some t)) = do
  kv_set (auth_cache_key hash) (cached_value t.user_id t.kind) auth_cache_ttl
  db_exec (λ now. touch_token now hash)
  pure (admitted (record { user_id = t.user_id; kind = t.kind }))

pub identify : Text → Option Session → M Checked
unfolding load_session
identify hash (some s) = pure (admitted s)
identify hash none = do row ← db_query (token_with hash); load_session hash row

-- No kinds means that all are accepted.
abbrev pub allowed : List Text → Text → Bool
allowed [] kind = true
allowed (k ∷ ks) kind = any (λ j. kind == j) (k ∷ ks)

abbrev pub restrict : List Text → Checked → Checked
restrict kinds (rejected r) = rejected r
restrict kinds (admitted s) =
    if allowed kinds s.kind
    then admitted s
    else rejected (write_error 403 "this token type cannot access this endpoint")

abbrev pub bearer : Text
bearer = codes "Bearer "

pub check_hash : List Text → Text → M Checked
unfolding identify
check_hash kinds hash = do
  cached ← kv_get (auth_cache_key hash)
  c ← identify hash (cached_session cached)
  pure (restrict kinds c)

unfoldable pub check_auth : Env → List Text → Text → M Checked
unfolding check_hash
check_auth env kinds authorization =
    if has_prefix authorization bearer
    then check_hash kinds (hash_token env (trim_prefix authorization bearer))
    else pure (rejected (write_error 401 "missing token"))

-- The middleware around a handler.
unfoldable pub serve_checked : (Session → M Response) → Checked → M Response
serve_checked next (rejected r) = pure r
serve_checked next (admitted s) = next s

unfoldable pub require_auth_kinds : Env → (Session → M Response) → List Text → Text → M Response
unfolding serve_checked
require_auth_kinds env next kinds authorization = do
  c ← check_auth env kinds authorization
  serve_checked next c

unfoldable pub forget : List Text → M (Unit {0})
forget [] = pure tt
forget (hash ∷ hashes) = do kv_del (auth_cache_key hash); forget hashes

abbrev pub hashes_of : Text → Text → Db → List Text
hashes_of user_id kind db = map token_key (tokens_of user_id kind db)

-- An error of the query leaves the list empty.
abbrev pub or_empty {ℓ} : {A : Type ℓ} → Option (List A) → List A
or_empty none = []
or_empty (some xs) = xs

unfoldable pub replace_tokens : Text → Text → Text → M Bool
replace_tokens user_id kind hash = and_then attempt (
    transaction (
      and_then (db_exec (λ now. delete_tokens user_id kind)) (
        and_then (db_exec (λ now. insert_token now hash user_id kind (codes "rotate")))
          (and_then (db_exec (λ now. touch_user now user_id)) attempt))))

pub finish_rotation : List Text → Text → Bool → M (Option Text)
finish_rotation old tok false = pure none
finish_rotation old tok true = do forget old; pure (some tok)

-- `bytes` are the random bytes of the new token.
unfoldable pub rotate_token : Env → List ℕ → Text → Text → Text → M (Option Text)
unfolding finish_rotation replace_tokens
rotate_token env bytes user_id kind prefix = do
  old ← db_query (hashes_of user_id kind)
  let tok = generate_token prefix bytes
  done ← replace_tokens user_id kind (hash_token env tok)
  finish_rotation (or_empty old) tok done
