-- ===== src/Outgoing/Registered.antt =====
-- PutWebhook and then TestWebhook (internal/pingclaw/handlers.go).
use pingclaw_server.Prelude.{
  ℕ, ◌≡◌, refl, Bool, Option, some, Text, leb, if◌then◌else◌, Bool-cases, inl, inr,
}
use pingclaw_server.Text.{trim_space}
use pingclaw_server.World.{World}
use pingclaw_server.World.Laws.{IsHealthy}
use pingclaw_server.Http.{Json}
use pingclaw_server.Token.{Env}
use pingclaw_server.Auth.{Session}
use pingclaw_server.PrivateIp.{Net}
use pingclaw_server.Webhook.{Url, WebhookRequest, Target, put_webhook}
use pingclaw_server.Webhook.Cache.{put_webhook-lookup_webhook}
use pingclaw_server.Location.{LocationJson}
use pingclaw_server.Outgoing.{
  Post, Sent, unbuilt, unreachable, answered, post, test_target, test_webhook,
}

-- Only a status below 300 is a delivery.
abbrev pub reported : Sent → ℕ
reported unbuilt = 502
reported unreachable = 502
reported (answered status) = if leb 300 status then 502 else 200

test_target_reports :
    (env : Env) (lj : LocationJson) (send : Post → Sent) (id : Text) (t : Target) (outcome : Sent)
    (w : World)
    → ((body : Json) → send (post t.url t.secret body) ≡ outcome)
    → (test_target env lj send id (some t) w).0.status ≡ reported outcome
unfolding test_target
test_target_reports env lj send id t unbuilt w h = rw h refl
test_target_reports env lj send id t unreachable w h = rw h refl
test_target_reports env lj send id t (answered status) w h = elim (Bool-cases (leb 300 status)) [
  | inl failed ↦ rw (h, failed) refl
  | inr fine ↦ rw (h, fine) refl
]

-- Once a webhook was saved with 200, while every call works, a test posts to the saved URL with the
-- saved secret, each without the white space around it, whatever was cached or registered before:
-- whatever that endpoint makes of every body, the user learns of exactly that, as 200 when it answers
-- with a status below 300 and as 502 when it does not.
pub put_webhook-test_webhook :
    (net : Net) (parse_url : Text → Option Url) (local_mode : Bool) (req : WebhookRequest)
    (env : Env) (lj : LocationJson) (send : Post → Sent) (outcome : Sent) (s : Session) (w : World)
    → IsHealthy w
    → (put_webhook net parse_url local_mode (some req) s w).0.status ≡ 200
    → ((body : Json) → send (post (trim_space req.url) (trim_space req.secret) body) ≡ outcome)
    → (test_webhook env lj send s (put_webhook net parse_url local_mode (some req) s w).1).0.status
      ≡ reported outcome
unfolding test_webhook
put_webhook-test_webhook net parse_url local_mode req env lj send outcome s w u e h =
    rw (put_webhook-lookup_webhook net parse_url local_mode req s w u e)
      (test_target_reports env lj send s.user_id _ outcome _ h)
