-- ===== src/Outgoing/Traced.antt =====
-- The deliveries on request of internal/pingclaw/handlers.go and the calls of the store and the database that they make.
use pingclaw_server.Prelude.{Option, none, some, Text}
use pingclaw_server.Auth.Traced.{IsTraced, traced_rules}
use pingclaw_server.Token.{Env}
use pingclaw_server.Auth.{Session}
use pingclaw_server.Webhook.{Target}
use pingclaw_server.Webhook.Traced.{lookup_webhook-IsTraced}
use pingclaw_server.OpenClaw.{DestJson, Lookup, lookup_error, no_destination, destination}
use pingclaw_server.OpenClaw.Traced.{lookup_openclaw_dest-IsTraced}
use pingclaw_server.Location.{LocationJson}
use pingclaw_server.Location.Traced.{read_location-IsTraced}
use pingclaw_server.Outgoing.{
  Post, Sent, Format, test_target, test_webhook, send_to, send_openclaw_location,
}

module _ (Who : Text → Type 0) where
  test_target-IsTraced :
      (env : Env) (lj : LocationJson) (send : Post → Sent) (user_id : Text) (t : Option Target)
      → IsTraced Who (test_target env lj send user_id t)
  unfolding test_target
  test_target-IsTraced env lj send user_id none = search traced_rules
  test_target-IsTraced env lj send user_id (some t) =
      search (traced_rules, read_location-IsTraced) depth 8

  pub test_webhook-IsTraced :
      (env : Env) (lj : LocationJson) (send : Post → Sent) (s : Session)
      → IsTraced Who (test_webhook env lj send s)
  unfolding test_webhook
  test_webhook-IsTraced env lj send s =
      search (traced_rules, lookup_webhook-IsTraced, test_target-IsTraced) depth 6

  send_to-IsTraced :
      (lj : LocationJson) (fmt : Format) (send : Post → Sent) (user_id : Text) (l : Lookup)
      → IsTraced Who (send_to lj fmt send user_id l)
  unfolding send_to
  send_to-IsTraced lj fmt send user_id lookup_error = search traced_rules
  send_to-IsTraced lj fmt send user_id no_destination = search traced_rules
  send_to-IsTraced lj fmt send user_id (destination d) =
      search (traced_rules, read_location-IsTraced) depth 6

  pub send_openclaw_location-IsTraced :
      (lj : LocationJson) (dj : DestJson) (fmt : Format) (send : Post → Sent) (s : Session)
      → IsTraced Who (send_openclaw_location lj dj fmt send s)
  unfolding send_openclaw_location
  send_openclaw_location-IsTraced lj dj fmt send s =
      search (traced_rules, lookup_openclaw_dest-IsTraced, send_to-IsTraced) depth 6
