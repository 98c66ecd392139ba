-- ===== src/Account.antt =====
-- Sign-in, web codes, token rotation and account deletion: the handlers of
-- internal/pingclaw/handlers.go on users and tokens. A request body is given as what
-- json.Decoder makes of it, `none` on an error; random bytes are arguments.
pub mod WebCode
pub mod Deletion
pub mod Traced
use pingclaw_server.Prelude.{
  ℕ, Bool, true, false, not, ◌&&◌, ◌||◌, Option, none, some, List, [], ◌∷◌, ◌++◌, map, length, Text,
  codes, ltb, if◌then◌else◌, ◌==◌,
}
use pingclaw_server.Prelude.Int.{ℤ, pos}
use pingclaw_server.Text.{trim_space, to_upper}
use pingclaw_server.Kv.{Reply, found, key_not_found, failed}
use pingclaw_server.Db.{
  Db, Token, Identity, identity_in, tokens_of, token_key, insert_user, insert_identity, touch_user,
  delete_user,
}
use pingclaw_server.Db.Table.{select}
use pingclaw_server.World.{
  World, M, pure, ◌>>=◌, ◌>>◌, kv_get, kv_set, kv_get_del, kv_del, db_query, db_exec,
}
use pingclaw_server.RateLimit.{Limiter, Verdict, allow}
use pingclaw_server.Http.{
  Json, Fields, Response, str, number, bool, obj, end, field, write_json, write_error, too_many,
}
use pingclaw_server.Token.{Env, generate_web_code}
use pingclaw_server.Auth.{Session, minutes, rotate_token, auth_cache_key, forget, or_empty}

pub record Config : Type 0 where
  pub limiter : Limiter
  pub limiter_fast : Limiter
  pub per_ip_per_hour : ℕ
  pub location_post_per_minute : ℕ
  pub location_get_per_minute : ℕ
  pub chatgpt_url : Text
  pub local_mode : Bool

abbrev pub web_code_ttl : ℤ
web_code_ttl = minutes 5

abbrev pub web_code_key : Text → Text
web_code_key code = codes "webcode:" ++ code

abbrev pub ip_key : Text → Text
ip_key ip = codes "rl:ip:" ++ ip

abbrev pub ok_fields : Fields → Response
ok_fields fs = write_json 200 (obj fs)

web_code_stored : Text → Bool → Response
web_code_stored code false = write_error 500 "internal error"
web_code_stored code true =
    ok_fields (field "code" (str code) (field "expires_in" (number 300) end))

unfoldable pub web_code : List ℕ → Session → M Response
unfolding web_code_stored
web_code bytes s = do
  let code = generate_web_code bytes
  stored ← kv_set (web_code_key code) s.user_id web_code_ttl
  pure (web_code_stored code stored)

abbrev pub session_issued : Text → Option Text → Response
session_issued user_id none = write_error 500 "internal error"
session_issued user_id (some tok) =
    ok_fields (field "web_session" (str tok) (field "user_id" (str user_id) end))

abbrev pub pairing_issued : Text → Option Text → Response
pairing_issued user_id none = write_error 500 "internal error"
pairing_issued user_id (some tok) =
    ok_fields (field "pairing_token" (str tok) (field "user_id" (str user_id) end))

abbrev pub invalid_code : Response
invalid_code = write_error 401 "invalid or expired code"

issue_session : Env → List ℕ → Text → M Response
issue_session env bytes user_id = do
  tok ← rotate_token env bytes user_id (codes "web_session") (codes "ws_")
  pure (session_issued user_id tok)

-- An empty user id is as good as no code.
pub redeem : Env → List ℕ → Reply Text → M Response
unfolding issue_session
redeem env bytes (found []) = pure invalid_code
redeem env bytes (found (c ∷ user)) = issue_session env bytes (c ∷ user)
redeem env bytes key_not_found = pure invalid_code
redeem env bytes failed = pure invalid_code

pub login_checked : Env → List ℕ → Text → Verdict → M Response
unfolding redeem
login_checked env bytes code v =
    if v.allowed
    then (do user ← kv_get_del (web_code_key code); redeem env bytes user)
    else pure (too_many v.retry_after "too many attempts — try again later")

pub login_with : Env → Config → List ℕ → Text → Text → M Response
unfolding login_checked
login_with env cfg bytes ip [] = pure invalid_code
login_with env cfg bytes ip (c ∷ code) = do
  v ← allow cfg.limiter (ip_key ip) cfg.per_ip_per_hour
  login_checked env bytes (c ∷ code) v

-- What the server makes of the code that the user typed.
abbrev pub normal_code : Env → Text → Text
normal_code env typed = trim_space (to_upper env.wide_upper typed)

unfoldable pub web_login : Env → Config → List ℕ → Text → Option Text → M Response
unfolding login_with
web_login env cfg bytes ip none = pure (write_error 400 "invalid request body")
web_login env cfg bytes ip (some typed) = login_with env cfg bytes ip (normal_code env typed)

abbrev counted_tokens : Text → Text → Db → ℕ
counted_tokens user_id kind db = length (tokens_of user_id kind db)

-- A count that could not be read stays 0.
abbrev or_zero : Option ℕ → ℕ
or_zero none = 0
or_zero (some n) = n

unfoldable pub get_me : Session → M Response
get_me s = do
  api_keys ← db_query (counted_tokens s.user_id (codes "api_key"))
  pairings ← db_query (counted_tokens s.user_id (codes "pairing_token"))
  pure (
      ok_fields (
        field "user_id" (str s.user_id) (
          field "has_api_key" (bool (ltb 0 (or_zero api_keys)))
            (field "has_pairing_token" (bool (ltb 0 (or_zero pairings))) end))))

abbrev rotated : Option Text → (Text → Fields) → Response
rotated none fs = write_error 500 "rotate failed"
rotated (some tok) fs = ok_fields (fs tok)

unfoldable pub rotate_pairing_token : Env → List ℕ → Session → M Response
rotate_pairing_token env bytes s = do
  tok ← rotate_token env bytes s.user_id (codes "pairing_token") (codes "pt_")
  pure (rotated tok λ t. field "pairing_token" (str t) end)

unfoldable pub rotate_api_key : Env → List ℕ → Session → M Response
rotate_api_key env bytes s = do
  tok ← rotate_token env bytes s.user_id (codes "api_key") (codes "ak_")
  pure (rotated tok λ t. field "api_key" (str t) end)

abbrev pub location_key : Text → Text
location_key user_id = codes "loc:" ++ user_id

abbrev pub webhook_cache_key : Text → Text
webhook_cache_key user_id = codes "wh:" ++ user_id

abbrev pub openclaw_dest_cache_key : Text → Text
openclaw_dest_cache_key user_id = codes "oc:" ++ user_id

abbrev pub hashes_of_user : Text → Db → List Text
hashes_of_user user_id db = map token_key (select (λ t. t.user_id == user_id) db.tokens)

abbrev deleted : Bool → Response
deleted true = ok_fields (field "status" (str (codes "deleted")) end)
deleted false = write_error 500 "delete failed"

unfoldable pub delete_account : Session → M Response
delete_account s = do
  hashes ← db_query (hashes_of_user s.user_id)
  forget (or_empty hashes)
  kv_del (webhook_cache_key s.user_id)
  kv_del (openclaw_dest_cache_key s.user_id)
  kv_del (location_key s.user_id)
  ok ← db_exec (λ now. delete_user s.user_id)
  pure (deleted ok)
