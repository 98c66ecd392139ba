-- ===== src/Requests/Effects.antt =====
-- The statements that a request to the server sends: the handlers of internal/pingclaw behind their
-- routes.
use pingclaw_server.Prelude.{Option, none, some, Text}
use pingclaw_server.Auth.Traced.{IsTraced, traced_rules}
use pingclaw_server.Http.{Response}
use pingclaw_server.Auth.{Session, Checked, rejected, admitted, serve_checked, require_auth_kinds}
use pingclaw_server.Auth.Traced.Tokens.{check_auth-IsTraced}
use pingclaw_server.Account.Traced.{
  web_code-IsTraced, get_me-IsTraced, rotate_pairing_token-IsTraced, rotate_api_key-IsTraced,
  delete_account-IsTraced, web_login-IsTraced,
}
use pingclaw_server.SignIn.Traced.{social_auth-IsTraced}
use pingclaw_server.Integration.Traced.{get_integration_status-IsTraced}
use pingclaw_server.Webhook.Traced.{
  get_webhook-IsTraced, put_webhook-IsTraced, delete_user_webhook-IsTraced,
}
use pingclaw_server.OAuth.Traced.{oauth_authorize-IsTraced, oauth_token-IsTraced}
use pingclaw_server.OpenClaw.Traced.{
  get_openclaw_dest-IsTraced, test_openclaw_dest-IsTraced, register_openclaw_dest-IsTraced,
  delete_openclaw_dest-IsTraced,
}
use pingclaw_server.Location.Traced.{post_location-IsTraced, get_location-IsTraced}
use pingclaw_server.Mcp.{McpChecked, mcp_rejected, mcp_admitted}
use pingclaw_server.Mcp.Traced.{mcp_auth_middleware-IsTraced, get_my_location-IsTraced}
use pingclaw_server.Outgoing.Traced.{test_webhook-IsTraced, send_openclaw_location-IsTraced}
use pingclaw_server.Export.Traced.{get_my_data-IsTraced}
use pingclaw_server.Requests.{
  Server, Call, me, get_location, delete_account, my_data, integration_status, get_webhook,
  delete_webhook, test_webhook, get_openclaw, delete_openclaw, test_openclaw, send_openclaw,
  web_code, rotate_pairing_token, rotate_api_key, post_location, put_webhook, register_openclaw,
  handle, Request, config, social, login, authorize, token, behind, mcp, answer_or_panic, run_tool,
  serve,
}

module _ (Who : Text → Type 0) (srv : Server) where
  -- A handler behind the middleware only sends statements about the user of its session.
  pub handle-IsTraced : (c : Call) (s : Session) → Who s.user_id → IsTraced Who (handle srv c s)
  unfolding handle
  handle-IsTraced me s p = get_me-IsTraced Who s p
  handle-IsTraced get_location s p = get_location-IsTraced Who _ _ _ s
  handle-IsTraced delete_account s p = delete_account-IsTraced Who s p
  handle-IsTraced my_data s p = get_my_data-IsTraced Who _ _ s
  handle-IsTraced integration_status s p = get_integration_status-IsTraced Who s
  handle-IsTraced get_webhook s p = get_webhook-IsTraced Who s
  handle-IsTraced delete_webhook s p = delete_user_webhook-IsTraced Who s p
  handle-IsTraced test_webhook s p = test_webhook-IsTraced Who _ _ _ s
  handle-IsTraced get_openclaw s p = get_openclaw_dest-IsTraced Who _ s
  handle-IsTraced delete_openclaw s p = delete_openclaw_dest-IsTraced Who s p
  handle-IsTraced test_openclaw s p = test_openclaw_dest-IsTraced Who _ _ s
  handle-IsTraced send_openclaw s p = send_openclaw_location-IsTraced Who _ _ _ _ s
  handle-IsTraced (web_code bytes) s p = web_code-IsTraced Who s p bytes
  handle-IsTraced (rotate_pairing_token bytes) s p = rotate_pairing_token-IsTraced Who s p _ bytes
  handle-IsTraced (rotate_api_key bytes) s p = rotate_api_key-IsTraced Who s p _ bytes
  handle-IsTraced (post_location req) s p = search (traced_rules, post_location-IsTraced) depth 6
  handle-IsTraced (put_webhook req) s p = put_webhook-IsTraced Who s p _ _ _ req
  handle-IsTraced (register_openclaw uuid req) s p =
      register_openclaw_dest-IsTraced Who s p _ _ _ _ uuid req

module _ (Who : Text → Type 0) (everyone : (id : Text) → Who id) (srv : Server) where
  serve_checked-IsTraced :
      (call : Call) (c : Checked) → IsTraced Who (serve_checked (handle srv call) c)
  unfolding serve_checked
  serve_checked-IsTraced call (rejected r) = search traced_rules
  serve_checked-IsTraced call (admitted s) = handle-IsTraced Who srv call s (everyone s.user_id)

  run_tool-IsTraced : (c : McpChecked) → IsTraced Who (run_tool srv c)
  unfolding run_tool
  run_tool-IsTraced (mcp_rejected r) = search traced_rules
  run_tool-IsTraced (mcp_admitted user_id) = search (traced_rules, get_my_location-IsTraced) depth 6

  answer_or_panic-IsTraced : (r : Option Response) → IsTraced Who (answer_or_panic r)
  answer_or_panic-IsTraced none = search traced_rules
  answer_or_panic-IsTraced (some r) = search traced_rules

  pub serve-IsTraced : (r : Request) → IsTraced Who (serve srv r)
  unfolding serve require_auth_kinds
  serve-IsTraced config = search traced_rules
  serve-IsTraced (social bytes uuid ip req) =
      search (traced_rules, social_auth-IsTraced, answer_or_panic-IsTraced) depth 6
  serve-IsTraced (login bytes ip typed) =
      search (traced_rules, web_login-IsTraced, everyone) depth 6
  serve-IsTraced (authorize bytes q form) = search (traced_rules, oauth_authorize-IsTraced) depth 6
  serve-IsTraced (token bytes req) = search (traced_rules, oauth_token-IsTraced, everyone) depth 6
  serve-IsTraced (behind authorization c) =
      search (traced_rules, check_auth-IsTraced, serve_checked-IsTraced) depth 8
  serve-IsTraced (mcp authorization) =
      search (traced_rules, mcp_auth_middleware-IsTraced, run_tool-IsTraced) depth 6
