-- ===== src/Examples/Codes.antt =====
-- Web codes, OAuth codes and the rate limiter on the concrete server.
use pingclaw_server.Prelude.{
  ◌≡◌, ◌≢◌, refl, true, ◌++◌, any, nat_beq, if◌then◌else◌, none, some, [], ◌∷◌, ◌⊎◌, arith, Text,
  codes,
}
use pingclaw_server.Text.{trim_space, to_upper, hex_encode}
use pingclaw_server.Kv
use pingclaw_server.Kv.{Kv, Entry, found}
use pingclaw_server.Http.{str, obj, end, field, write_json}
use pingclaw_server.Db.{token_with, delete_tokens, insert_token, touch_user}
use pingclaw_server.World.{
  World, at, kv_get_del, kv_incr, kv_expire, kv_ttl, kv_set, db_query, db_exec, attempt,
}
use pingclaw_server.RateLimit.{allow}
use pingclaw_server.Token.{hash_token, generate_token, generate_web_code}
use pingclaw_server.Auth.{rotate_token}
use pingclaw_server.Account.{web_login, web_code, web_code_key}
use pingclaw_server.Account.WebCode.{web_login_once, web_code-web_login}
use pingclaw_server.OAuth.{
  Web, OAuthConfig, CodeData, CodeJson, TokenRequest, Query, Form, oauth_code_key, oauth_token,
  oauth_authorize,
}
use pingclaw_server.OAuth.Codes.{IsEntitled, oauth_token_once, oauth_token-IsEntitled}
use pingclaw_server.OAuth.Redirect.{oauth_authorize_redirects}
use pingclaw_server.Examples.{env, alice, world, session, config, world-IsHealthy}

abbrev ip : Text
ip = codes "10.0.0.7"

abbrev code : Text
code = codes "AB"

-- A server that keeps one value under one key, until a time.
abbrev holding : Text → Text → World
holding k v = record world {
  kv = Kv.update k (some (record { value = v; expires_at = some 2000 })) (λ j. none);
}

signed_in :
    (web_login env config (1 ∷ []) ip (some code) (holding (web_code_key code) alice)).0.status
    ≡ 200
unfolding web_login kv_incr kv_expire kv_ttl kv_get_del rotate_token allow db_query db_exec attempt
    to_upper trim_space delete_tokens insert_token touch_user hash_token hex_encode generate_token
signed_in = refl

web_login_once_example :
    (web_login env config
      (2 ∷ [])
      ip
      (some code)
      (web_login env config (1 ∷ []) ip (some code) (holding (web_code_key code) alice)).1).0.status
    ≢ 200
web_login_once_example =
    web_login_once env config (1 ∷ []) (2 ∷ []) ip ip code code (holding (web_code_key code) alice)
      (record { up = λ n. refl }) refl signed_in

abbrev asked : World
asked = at 2000 (web_code (7 ∷ []) session world).1

let_in : (allow config.limiter (codes "rl:ip:10.0.0.7") 10 asked).0.allowed ≡ true
unfolding allow kv_incr kv_expire kv_ttl web_code kv_set generate_web_code
let_in = refl

fresh_session : token_with (hash_token env (generate_token (codes "ws_") (1 ∷ []))) world.db ≡ none
unfolding hash_token hex_encode generate_token
fresh_session = refl

web_code-web_login_example :
    (web_login env config (1 ∷ []) ip (some (generate_web_code (7 ∷ []))) asked).0
    ≡ write_json 200 (
        obj (
          field "web_session"
            (str (generate_token (codes "ws_") (1 ∷ [])))
            (field "user_id" (str alice) end)))
web_code-web_login_example =
    web_code-web_login env config 7 b'u' [] (1 ∷ []) ip (codes "sr_a") (codes "web_session") 2000
      world world-IsHealthy (omega arith) (omega arith) let_in refl fresh_session

abbrev oauth : OAuthConfig
oauth = record {
  client_id = codes "gpt";
  client_secret = codes "s";
  redirect_uri = codes "https://x/cb";
}

abbrev web : Web
web = record { template_ok = true; located = λ t. t }

abbrev code_data : CodeData
code_data = record { user_id = alice; redirect_uri = codes "https://x/cb"; client_id = codes "gpt" }

-- The only value that is ever encoded.
abbrev code_json : CodeJson
code_json = record { marshal = λ d. codes "data"; unmarshal = λ t. some code_data }

abbrev request : TokenRequest
request = record {
  grant_type = codes "authorization_code";
  code = code;
  client_id = codes "gpt";
  client_secret = codes "s";
  redirect_uri = codes "https://x/cb";
}

abbrev granting : World
granting = holding (oauth_code_key code) (codes "data")

granted : (oauth_token env oauth code_json (1 ∷ []) (some request) granting).0.status ≡ 200
unfolding oauth_token kv_get_del rotate_token db_query db_exec attempt delete_tokens insert_token
    touch_user
granted = refl

oauth_token-IsEntitled_example : IsEntitled oauth code_json request granting
oauth_token-IsEntitled_example =
    oauth_token-IsEntitled env oauth code_json (1 ∷ []) request granting granted

oauth_token_once_example :
    (oauth_token env oauth code_json
      (2 ∷ [])
      (some request)
      (oauth_token env oauth code_json (1 ∷ []) (some request) granting).1).0.status
    ≢ 200
oauth_token_once_example =
    oauth_token_once env oauth code_json (1 ∷ []) (2 ∷ []) request request granting
      (record { up = λ n. refl }) refl granted

abbrev query : Query
query = record {
  client_id = codes "gpt";
  redirect_uri = codes "https://x/cb";
  state = codes "st";
  response_type = codes "code";
}

abbrev form : Form
form = record {
  client_id = codes "gpt";
  redirect_uri = codes "https://x/cb";
  state = codes "st";
  code = code;
}

redirected :
    (oauth_authorize env oauth code_json web
      (3 ∷ [])
      query
      (some form)
      (holding (web_code_key code) alice)).0.status
    ≡ 302
unfolding oauth_authorize kv_get_del kv_set to_upper trim_space
redirected = refl

oauth_authorize_redirects_example :
    (f : Form) × ((some form) ≡ some f)
    × ((oauth_authorize env oauth code_json web
          (3 ∷ [])
          query
          (some form)
          (holding (web_code_key code) alice)).0.headers
        ≡ (
          codes "Location",
          f.redirect_uri
              ++ ((if any (λ c. nat_beq c b'?') f.redirect_uri then codes "&" else codes "?")
                  ++ (codes "code="
                      ++ (generate_web_code (3 ∷ []) ++ (codes "&state=" ++ f.state)))),
        )
          ∷ [])
    × (f.client_id ≡ oauth.client_id)
    × ((oauth.redirect_uri ≡ []) ⊎ (f.redirect_uri ≡ oauth.redirect_uri))
oauth_authorize_redirects_example =
    oauth_authorize_redirects env oauth code_json web (3 ∷ []) query (some form)
      (holding (web_code_key code) alice) redirected
