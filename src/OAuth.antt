-- ===== src/OAuth.antt =====
-- internal/pingclaw/oauth.go: the authorization and token endpoints. The query and the form are
-- given as the values that URL.Query().Get and FormValue return, the JSON of oauthCodeData by its
-- encoder and decoder.
pub mod Codes
pub mod Redirect
pub mod Traced
use pingclaw_server.Prelude.{
  ℕ, Bool, true, false, not, ◌&&◌, ◌||◌, Option, none, some, List, [], ◌∷◌, ◌++◌, Text, codes, any,
  nat_beq, if◌then◌else◌, ◌==◌, String,
}
use pingclaw_server.Prelude.Int.{ℤ}
use pingclaw_server.Kv.{Reply, found, key_not_found, failed}
use pingclaw_server.World.{World, M, pure, ◌>>=◌, ◌>>◌, kv_set, kv_get_del}
use pingclaw_server.Http.{
  Json, Fields, Response, str, obj, end, field, page, no_body, write_json, write_error, http_error,
  with_header,
}
use pingclaw_server.Token.{Env, generate_web_code}
use pingclaw_server.Auth.{minutes, rotate_token}
use pingclaw_server.Account.{web_code_key, normal_code, ok_fields}

pub record OAuthConfig : Type 0 where
  pub client_id : Text
  pub client_secret : Text
  pub redirect_uri : Text

pub record CodeData : Type 0 where
  pub user_id : Text
  pub redirect_uri : Text
  pub client_id : Text

-- json.Marshal and json.Unmarshal of oauthCodeData.
pub record CodeJson : Type 0 where
  pub marshal : CodeData → Text
  pub unmarshal : Text → Option CodeData

-- Whether the page's template was read and parsed, and the Location that http.Redirect writes for a
-- target: it resolves one without a scheme and escapes what is not ASCII.
pub record Web : Type 0 where
  pub template_ok : Bool
  pub located : Text → Text

abbrev pub oauth_code_ttl : ℤ
oauth_code_ttl = minutes 5

abbrev pub oauth_code_key : Text → Text
oauth_code_key code = codes "oauth:code:" ++ code

pub record Query : Type 0 where
  pub client_id : Text
  pub redirect_uri : Text
  pub state : Text
  pub response_type : Text

pub record Form : Type 0 where
  pub client_id : Text
  pub redirect_uri : Text
  pub state : Text
  pub code : Text

abbrev pub serve_page : Bool → Fields → Response
serve_page false fs = http_error "internal error" 500
serve_page true fs = record {
  status = 200;
  headers = (codes "Content-Type", codes "text/html; charset=utf-8") ∷ [];
  body = page fs;
}

abbrev page_fields : Text → Text → Text → Fields → Fields
page_fields client_id redirect_uri state rest =
    field "ClientID" (str client_id)
      (field "RedirectURI" (str redirect_uri) (field "State" (str state) rest))

abbrev pub error_page : Bool → Form → String → Response
error_page template_ok f msg =
    serve_page template_ok
      (page_fields f.client_id f.redirect_uri f.state (field "Error" (str (codes msg)) end))

-- A redirect URI is pinned by the configuration if it names one.
abbrev pub wrong_redirect : OAuthConfig → Text → Bool
wrong_redirect cfg uri = not (cfg.redirect_uri == []) && not (uri == cfg.redirect_uri)

-- The checks of the query, with the response to the first that fails.
abbrev pub query_refusal : OAuthConfig → Query → Option Response
query_refusal cfg q =
    if cfg.client_id == []
    then some (http_error "OAuth not configured on this server" 503)
    else if not (q.client_id == cfg.client_id)
    then some (http_error "invalid client_id" 400)
    else if not (q.response_type == codes "code")
    then some (http_error "unsupported response_type (must be 'code')" 400)
    else if q.redirect_uri == []
    then some (http_error "redirect_uri is required" 400)
    else if wrong_redirect cfg q.redirect_uri
    then some (http_error "invalid redirect_uri" 400)
    else none

-- The checks of the form: hidden fields can be changed by the client.
abbrev pub form_refusal : OAuthConfig → Form → Option Response
form_refusal cfg f =
    if not (f.client_id == cfg.client_id)
    then some (http_error "invalid client_id" 400)
    else if wrong_redirect cfg f.redirect_uri
    then some (http_error "invalid redirect_uri" 400)
    else if f.redirect_uri == []
    then some (http_error "redirect_uri is required" 400)
    else none

abbrev pub separator : Text → Text
separator uri = if any (λ c. nat_beq c b'?') uri then codes "&" else codes "?"

-- fmt.Sprintf("%s%scode=%s&state=%s", …)
abbrev pub redirect_target : Form → Text → Text
redirect_target f code =
    f.redirect_uri
    ++ (separator f.redirect_uri ++ (codes "code=" ++ (code ++ (codes "&state=" ++ f.state))))

abbrev pub redirect_to : Web → Text → Response
redirect_to web target =
    with_header "Location" (web.located target)
      (record { status = 302; headers = []; body = no_body })

pub code_stored : Web → Form → Text → Bool → Response
code_stored web f code false = http_error "internal error" 500
code_stored web f code true = redirect_to web (redirect_target f code)

pub issue_code : CodeJson → Web → List ℕ → Form → Text → M Response
unfolding code_stored
issue_code cj web bytes f user_id = do
  let code = generate_web_code bytes
  stored ←
      kv_set (oauth_code_key code)
        (cj.marshal
          (record { user_id = user_id; redirect_uri = f.redirect_uri; client_id = f.client_id }))
        oauth_code_ttl
  pure (code_stored web f code stored)

abbrev pub expired_page : Bool → Form → Response
expired_page template_ok f =
    error_page template_ok f "Invalid or expired code. Generate a new one from the app."

pub use_web_code : CodeJson → Web → List ℕ → Form → Reply Text → M Response
unfolding issue_code
use_web_code cj web bytes f (found []) = pure (expired_page web.template_ok f)
use_web_code cj web bytes f (found (c ∷ user)) = issue_code cj web bytes f (c ∷ user)
use_web_code cj web bytes f key_not_found = pure (expired_page web.template_ok f)
use_web_code cj web bytes f failed = pure (expired_page web.template_ok f)

pub submit_code : CodeJson → Web → List ℕ → Form → Text → M Response
unfolding use_web_code
submit_code cj web bytes f [] =
    pure (error_page web.template_ok f "Please enter a code from the PingClaw app.")
submit_code cj web bytes f (c ∷ code) = do
  user ← kv_get_del (web_code_key (c ∷ code))
  use_web_code cj web bytes f user

pub submit_form : Env → CodeJson → Web → List ℕ → Form → Option Response → M Response
unfolding submit_code
submit_form env cj web bytes f (some r) = pure r
submit_form env cj web bytes f none = submit_code cj web bytes f (normal_code env f.code)

-- A GET has no form.
pub after_query :
    Env → OAuthConfig → CodeJson → Web → List ℕ → Query → Option Form → Option Response → M Response
unfolding submit_form
after_query env cfg cj web bytes q form (some r) = pure r
after_query env cfg cj web bytes q none none =
    pure (serve_page web.template_ok (page_fields q.client_id q.redirect_uri q.state end))
after_query env cfg cj web bytes q (some f) none =
    submit_form env cj web bytes f (form_refusal cfg f)

unfoldable pub oauth_authorize :
    Env → OAuthConfig → CodeJson → Web → List ℕ → Query → Option Form → M Response
unfolding after_query
oauth_authorize env cfg cj web bytes q form =
    after_query env cfg cj web bytes q form (query_refusal cfg q)

pub record TokenRequest : Type 0 where
  pub grant_type : Text
  pub code : Text
  pub client_id : Text
  pub client_secret : Text
  pub redirect_uri : Text

abbrev pub token_refusal : OAuthConfig → TokenRequest → Option Response
token_refusal cfg r =
    if not (r.grant_type == codes "authorization_code")
    then some (write_error 400 "unsupported grant_type")
    else if not (r.client_id == cfg.client_id) || not (r.client_secret == cfg.client_secret)
    then some (write_error 401 "invalid client credentials")
    else none

abbrev pub token_issued : Option Text → Response
token_issued none = write_error 500 "failed to issue token"
token_issued (some key) =
    with_header "Cache-Control" (codes "no-store")
      (ok_fields (field "access_token" (str key) (field "token_type" (str (codes "Bearer")) end)))

pub grant : Env → List ℕ → TokenRequest → Option CodeData → M Response
grant env bytes r none = pure (write_error 500 "internal error")
grant env bytes r (some stored) =
    if not (stored.client_id == r.client_id) || not (stored.redirect_uri == r.redirect_uri)
    then pure (write_error 400 "code was issued for a different client or redirect_uri")
    else (do
      key ← rotate_token env bytes stored.user_id (codes "api_key") (codes "ak_")
      pure (token_issued key))

pub exchange : Env → CodeJson → List ℕ → TokenRequest → Reply Text → M Response
unfolding grant
exchange env cj bytes r (found []) = pure (write_error 400 "invalid or expired code")
exchange env cj bytes r (found (c ∷ raw)) = grant env bytes r (cj.unmarshal (c ∷ raw))
exchange env cj bytes r key_not_found = pure (write_error 400 "invalid or expired code")
exchange env cj bytes r failed = pure (write_error 400 "invalid or expired code")

pub redeem_code : Env → CodeJson → List ℕ → TokenRequest → Option Response → M Response
unfolding exchange
redeem_code env cj bytes r (some x) = pure x
redeem_code env cj bytes r none = do
  raw ← kv_get_del (oauth_code_key r.code)
  exchange env cj bytes r raw

unfoldable pub oauth_token :
    Env → OAuthConfig → CodeJson → List ℕ → Option TokenRequest → M Response
unfolding redeem_code
oauth_token env cfg cj bytes none = pure (write_error 400 "invalid request body")
oauth_token env cfg cj bytes (some r) = redeem_code env cj bytes r (token_refusal cfg r)
