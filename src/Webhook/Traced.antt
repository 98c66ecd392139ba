-- ===== src/Webhook/Traced.antt =====
-- The statements and the store calls of the webhook's handlers in internal/pingclaw/handlers.go.
use pingclaw_server.Prelude.{Bool, Option, none, some, [], ◌∷◌, Text}
use pingclaw_server.Text.{trim_space}
use pingclaw_server.Db.{Webhook}
use pingclaw_server.Auth.Traced.{IsTraced, traced_rules}
use pingclaw_server.Http.{Response}
use pingclaw_server.Auth.{Session}
use pingclaw_server.PrivateIp.{Net}
use pingclaw_server.Webhook.{
  Hit, no_webhook, target, miss, Url, WebhookRequest, remember, load_webhook, use_cache,
  lookup_webhook, save_webhook, save_unless, refusal, put_webhook, get_webhook, delete_user_webhook,
}

module _ (Who : Text → Type 0) where
  remember-IsTraced : (user_id url secret : Text) → IsTraced Who (remember user_id url secret)
  unfolding remember
  remember-IsTraced user_id [] secret = search traced_rules depth 6
  remember-IsTraced user_id (c ∷ url) secret = search traced_rules depth 6

  load_webhook-IsTraced :
      (user_id : Text) (row : Option (Option Webhook)) → IsTraced Who (load_webhook user_id row)
  unfolding load_webhook
  load_webhook-IsTraced user_id none = search traced_rules depth 6
  load_webhook-IsTraced user_id (some none) = search traced_rules depth 6
  load_webhook-IsTraced user_id (some (some r)) = remember-IsTraced user_id r.url r.secret

  use_cache-IsTraced : (user_id : Text) (h : Hit) → IsTraced Who (use_cache user_id h)
  unfolding use_cache
  use_cache-IsTraced user_id no_webhook = search traced_rules
  use_cache-IsTraced user_id (target t) = search traced_rules
  use_cache-IsTraced user_id miss = search (traced_rules, load_webhook-IsTraced) depth 6

  pub lookup_webhook-IsTraced : (user_id : Text) → IsTraced Who (lookup_webhook user_id)
  unfolding lookup_webhook
  lookup_webhook-IsTraced user_id = search (traced_rules, use_cache-IsTraced) depth 6

  pub get_webhook-IsTraced : (s : Session) → IsTraced Who (get_webhook s)
  unfolding get_webhook
  get_webhook-IsTraced s = search (traced_rules, lookup_webhook-IsTraced) depth 6

  module _ (s : Session) (own : Who s.user_id) where
    save_unless-IsTraced :
        (r : Option Response) (url secret : Text)
        → IsTraced Who (save_unless r s.user_id url secret)
    unfolding save_unless save_webhook
    save_unless-IsTraced (some r) url secret = search traced_rules
    save_unless-IsTraced none url secret = search traced_rules depth 10

    pub put_webhook-IsTraced :
        (net : Net) (parse_url : Text → Option Url) (local_mode : Bool)
        (req : Option WebhookRequest)
        → IsTraced Who (put_webhook net parse_url local_mode req s)
    unfolding put_webhook
    put_webhook-IsTraced net parse_url local_mode none = search traced_rules
    put_webhook-IsTraced net parse_url local_mode (some req) =
        let url = trim_space req.url in
        let secret = trim_space req.secret in
        save_unless-IsTraced (refusal net parse_url local_mode url secret) url secret

    pub delete_user_webhook-IsTraced : IsTraced Who (delete_user_webhook s)
    unfolding delete_user_webhook
    delete_user_webhook-IsTraced = search traced_rules depth 10
