-- ===== src/Requests.antt =====
-- The server as a whole: the routes of RegisterRoutes (internal/pingclaw/handlers.go) and the MCP
-- endpoint of cmd/pingclaw-server/main.go, with their middleware and handlers. A request is given
-- decoded, with the random bytes that its handler draws.
pub mod Coherence
pub mod Effects
pub mod Tables
pub mod Isolation
use pingclaw_server.Prelude.{
  ℕ, Bool, true, false, Option, none, some, List, [], ◌∷◌, Text, if◌then◌else◌,
}
use pingclaw_server.Prelude.Int.{ℤ}
use pingclaw_server.World.{World, M, pure, ◌>>=◌}
use pingclaw_server.Http.{Response}
use pingclaw_server.Token.{Env}
use pingclaw_server.Auth.{Session, require_auth_kinds}
use pingclaw_server.SocialAuth.{Verifier}
use pingclaw_server.PrivateIp.{Net}
use pingclaw_server.Account.{Config, web_login}
use pingclaw_server.SignIn.{SocialRequest, social_auth}
use pingclaw_server.Integration.{get_integration_status}
use pingclaw_server.Webhook.{Url, WebhookRequest, delete_user_webhook}
use pingclaw_server.OAuth.{
  Web, OAuthConfig, CodeJson, Query, Form, TokenRequest, oauth_authorize, oauth_token,
}
use pingclaw_server.OpenClaw.Delivery.{test_openclaw_delivery}
use pingclaw_server.OpenClaw.{
  Dest, DestJson, register_openclaw_dest, get_openclaw_dest, delete_openclaw_dest,
  test_openclaw_dest,
}
use pingclaw_server.Location.{LocationJson, LocationRequest, Delivery}
use pingclaw_server.Mcp.{
  McpChecked, mcp_rejected, mcp_admitted, ToolResult, mcp_auth_middleware, get_my_location,
}
use pingclaw_server.Outgoing.{Post, Sent, Format, send_openclaw_location}
use pingclaw_server.Export.{get_my_data}
use pingclaw_server.Account
use pingclaw_server.Location
use pingclaw_server.Webhook
use pingclaw_server.Outgoing
use pingclaw_server.Routes
use pingclaw_server.Routes.{Endpoint, kinds_of, get_config}

-- The handler's fields, and what it takes from libraries and other machines.
pub record Server : Type 0 where
  pub env : Env
  pub cfg : Config
  pub oauth : OAuthConfig
  pub verifier : Option Verifier
  pub locations : LocationJson
  pub dests : DestJson
  pub oauth_codes : CodeJson
  pub web : Web
  pub net : Net
  pub parse_url : Text → Option Url
  pub send : Post → Sent
  pub format : Format
  pub scanned : ℕ → Text
  pub age_of : Text → Option ℤ

-- A request to one of the endpoints behind requireAuth and requireAuthKinds.
pub data Call : Type 0 where
  me get_location delete_account my_data integration_status : Call
  get_webhook delete_webhook test_webhook : Call
  get_openclaw delete_openclaw test_openclaw send_openclaw : Call
  web_code rotate_pairing_token rotate_api_key : List ℕ → Call
  post_location : Option LocationRequest → Call
  put_webhook : Option WebhookRequest → Call
  register_openclaw : Text → Option Dest → Call

unfoldable pub endpoint_of : Call → Endpoint
endpoint_of me = Endpoint.me
endpoint_of get_location = Endpoint.get_location
endpoint_of delete_account = Endpoint.delete_account
endpoint_of my_data = Endpoint.my_data
endpoint_of integration_status = Endpoint.integration_status
endpoint_of get_webhook = Endpoint.get_webhook
endpoint_of delete_webhook = Endpoint.delete_webhook
endpoint_of test_webhook = Endpoint.test_webhook
endpoint_of get_openclaw = Endpoint.get_openclaw
endpoint_of delete_openclaw = Endpoint.delete_openclaw
endpoint_of test_openclaw = Endpoint.test_openclaw
endpoint_of send_openclaw = Endpoint.send_openclaw
endpoint_of (web_code bytes) = Endpoint.web_code
endpoint_of (rotate_pairing_token bytes) = Endpoint.rotate_pairing_token
endpoint_of (rotate_api_key bytes) = Endpoint.rotate_api_key
endpoint_of (post_location req) = Endpoint.post_location
endpoint_of (put_webhook req) = Endpoint.put_webhook
endpoint_of (register_openclaw uuid req) = Endpoint.register_openclaw

-- The deliveries that a location starts are no part of its response.
abbrev pub responded : Response × List Delivery → M Response
responded (r, deliveries) = pure r

module _ (srv : Server) where
  unfoldable pub handle : Call → Session → M Response
  handle me s = Account.get_me s
  handle get_location s = Location.get_location srv.env srv.cfg srv.locations s
  handle delete_account s = Account.delete_account s
  handle my_data s = get_my_data srv.scanned srv.locations s
  handle integration_status s = get_integration_status s
  handle get_webhook s = Webhook.get_webhook s
  handle delete_webhook s = delete_user_webhook s
  handle test_webhook s = Outgoing.test_webhook srv.env srv.locations srv.send s
  handle get_openclaw s = get_openclaw_dest srv.dests s
  handle delete_openclaw s = delete_openclaw_dest s
  handle test_openclaw s = test_openclaw_dest srv.dests (test_openclaw_delivery srv.send) s
  handle send_openclaw s = send_openclaw_location srv.locations srv.dests srv.format srv.send s
  handle (web_code bytes) s = Account.web_code bytes s
  handle (rotate_pairing_token bytes) s = Account.rotate_pairing_token srv.env bytes s
  handle (rotate_api_key bytes) s = Account.rotate_api_key srv.env bytes s
  handle (post_location req) s =
      Location.post_location srv.env srv.cfg srv.locations srv.dests req s >>= responded
  handle (put_webhook req) s = Webhook.put_webhook srv.net srv.parse_url srv.cfg.local_mode req s
  handle (register_openclaw uuid req) s =
      register_openclaw_dest srv.net srv.parse_url (test_openclaw_delivery srv.send)
        srv.cfg.local_mode uuid req s

pub data Request : Type 0 where
  config : Request
  social : List ℕ → Text → Text → Option SocialRequest → Request
  login : List ℕ → Text → Option Text → Request
  authorize : List ℕ → Query → Option Form → Request
  token : List ℕ → Option TokenRequest → Request
  -- The Authorization header, and the request behind it.
  behind : Text → Call → Request
  mcp : Text → Request

-- A handler that panics leaves no response.
pub data Answer : Type 0 where
  response : Response → Answer
  tool : ToolResult → Answer
  panicked : Answer

abbrev pub answer : Response → M Answer
answer r = pure (response r)

abbrev pub answer_or_panic : Option Response → M Answer
answer_or_panic none = pure panicked
answer_or_panic (some r) = pure (response r)

module _ (srv : Server) where
  pub run_tool : McpChecked → M Answer
  run_tool (mcp_rejected r) = answer r
  run_tool (mcp_admitted user_id) = do
    r ← get_my_location srv.env srv.locations srv.age_of user_id
    pure (tool r)

  unfoldable pub serve : Request → M Answer
  unfolding run_tool handle
  serve config = answer (get_config srv.cfg)
  serve (social bytes uuid ip req) =
      social_auth srv.env srv.cfg bytes uuid ip srv.verifier req >>= answer_or_panic
  serve (login bytes ip typed) = web_login srv.env srv.cfg bytes ip typed >>= answer
  serve (authorize bytes q form) =
      oauth_authorize srv.env srv.oauth srv.oauth_codes srv.web bytes q form >>= answer
  serve (token bytes req) = oauth_token srv.env srv.oauth srv.oauth_codes bytes req >>= answer
  serve (behind authorization c) =
      require_auth_kinds srv.env (handle srv c) (kinds_of (endpoint_of c)) authorization >>= answer
  serve (mcp authorization) = mcp_auth_middleware srv.env authorization >>= run_tool
