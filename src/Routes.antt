-- ===== src/Routes.antt =====
-- RegisterRoutes of internal/pingclaw/handlers.go: the endpoints behind the middleware, with the
-- kinds of token that each accepts, and GetConfig.
use pingclaw_server.Prelude.{
  ◌≡◌, refl, ◌∙◌, Bool, true, false, not, some, List, [], ◌∷◌, arith, Text, codes, if◌then◌else◌,
}
use pingclaw_server.Text.{has_prefix, trim_prefix}
use pingclaw_server.Db.{Token, token_with}
use pingclaw_server.World.{World}
use pingclaw_server.World.Laws.{IsHealthy}
use pingclaw_server.Http.{Response, str, obj, end, field, write_json, write_error}
use pingclaw_server.Token.{Env, hash_token}
use pingclaw_server.Auth.{Session, rejected, admitted, bearer, check_auth, allowed, restrict}
use pingclaw_server.Auth.Cache.{IsCoherent, check_auth-uncached}
use pingclaw_server.Account.{Config}

pub data Endpoint : Type 0 where
  me web_code get_location post_location : Endpoint
  rotate_pairing_token rotate_api_key delete_account my_data integration_status : Endpoint
  get_webhook put_webhook delete_webhook test_webhook : Endpoint
  register_openclaw get_openclaw delete_openclaw test_openclaw send_openclaw : Endpoint

abbrev pairing_token : Text
pairing_token = codes "pairing_token"

abbrev web_session : Text
web_session = codes "web_session"

-- requireAuth accepts every kind.
unfoldable pub kinds_of : Endpoint → List Text
kinds_of web_code = pairing_token ∷ web_session ∷ []
kinds_of post_location = pairing_token ∷ []
kinds_of rotate_pairing_token = web_session ∷ []
kinds_of rotate_api_key = web_session ∷ pairing_token ∷ []
kinds_of delete_account = web_session ∷ pairing_token ∷ []
kinds_of my_data = web_session ∷ pairing_token ∷ []
kinds_of me = []
kinds_of get_location = []
kinds_of integration_status = []
kinds_of get_webhook = []
kinds_of put_webhook = []
kinds_of delete_webhook = []
kinds_of test_webhook = []
kinds_of register_openclaw = []
kinds_of get_openclaw = []
kinds_of delete_openclaw = []
kinds_of test_openclaw = []
kinds_of send_openclaw = []

unfoldable pub get_config : Config → Response
get_config cfg = write_json 200 (
    obj (
      field "integrations"
        (obj (
          field "chatgpt"
            (obj (field "name" (str (codes "ChatGPT")) (field "url" (str cfg.chatgpt_url) end)))
            end))
        end))

-- What only the phone or the dashboard may do: sign in elsewhere, report a location, rotate a token,
-- and erase or export the account.
abbrev pub is_for_owner : Endpoint → Bool
is_for_owner web_code = true
is_for_owner post_location = true
is_for_owner rotate_pairing_token = true
is_for_owner rotate_api_key = true
is_for_owner delete_account = true
is_for_owner my_data = true
is_for_owner _ = false

-- The table, for an API key.
api_key_allowed : (e : Endpoint) → allowed (kinds_of e) (codes "api_key") ≡ not (is_for_owner e)
unfolding kinds_of
api_key_allowed me = refl
api_key_allowed web_code = refl
api_key_allowed get_location = refl
api_key_allowed post_location = refl
api_key_allowed rotate_pairing_token = refl
api_key_allowed rotate_api_key = refl
api_key_allowed delete_account = refl
api_key_allowed my_data = refl
api_key_allowed integration_status = refl
api_key_allowed get_webhook = refl
api_key_allowed put_webhook = refl
api_key_allowed delete_webhook = refl
api_key_allowed test_webhook = refl
api_key_allowed register_openclaw = refl
api_key_allowed get_openclaw = refl
api_key_allowed delete_openclaw = refl
api_key_allowed test_openclaw = refl
api_key_allowed send_openclaw = refl

restrict_api_key :
    (e : Endpoint) (s : Session)
    → s.kind ≡ codes "api_key"
    → restrict (kinds_of e) (admitted s) ≡ (
        if is_for_owner e
        then rejected (write_error 403 "this token type cannot access this endpoint")
        else admitted s)
restrict_api_key e s kind = rw (kind, api_key_allowed e) (ground arith)

-- An API key of the database is refused with 403 at the endpoints that are for the owner, and
-- admitted as its user at every other, while every call works and the cache agrees with the
-- database.
pub api_key_confined :
    (env : Env) (authorization : Text) (e : Endpoint) (w : World) (t : Token)
    → IsHealthy w
    → IsCoherent w
    → has_prefix authorization bearer ≡ true
    → token_with (hash_token env (trim_prefix authorization bearer)) w.db ≡ some t
    → t.kind ≡ codes "api_key"
    → (check_auth env (kinds_of e) authorization w).0 ≡ (
        if is_for_owner e
        then rejected (write_error 403 "this token type cannot access this endpoint")
        else admitted (record { user_id = t.user_id; kind = t.kind }))
api_key_confined env authorization e w t u c b row kind =
    check_auth-uncached env (kinds_of e) authorization w u c
    ∙ rw (b, row) (restrict_api_key e (record { user_id = t.user_id; kind = t.kind }) kind)
