-- ===== src/Location/Traced.antt =====
-- The location handlers of internal/pingclaw/handlers.go and the calls of the store and the database that they make.
use pingclaw_server.Prelude.{Bool, true, false, Option, none, some, Text}
use pingclaw_server.Kv.{Reply, found, key_not_found, failed}
use pingclaw_server.Auth.Traced.{IsTraced, traced_rules}
use pingclaw_server.RateLimit.{Verdict}
use pingclaw_server.RateLimit.Traced.{allow-IsTraced}
use pingclaw_server.Token.{Env}
use pingclaw_server.Auth.{Session}
use pingclaw_server.Account.{Config}
use pingclaw_server.Integration.Traced.{record_integration_activity-IsTraced}
use pingclaw_server.Webhook.{Target}
use pingclaw_server.Webhook.Traced.{lookup_webhook-IsTraced}
use pingclaw_server.OpenClaw.{DestJson, Lookup, lookup_error, no_destination, destination}
use pingclaw_server.OpenClaw.Traced.{lookup_openclaw_dest-IsTraced}
use pingclaw_server.Location.{
  CachedLocation, LocationJson, LocationRequest, read_location, write_location, notify_webhook,
  notify_openclaw, notify, post_saved, post_decoded, post_checked, post_location, show_location,
  get_checked, get_location,
}

module _ (Who : Text → Type 0) where
  pub read_location-IsTraced :
      (lj : LocationJson) (user_id : Text) → IsTraced Who (read_location lj user_id)
  unfolding read_location
  read_location-IsTraced lj user_id = search traced_rules depth 6

  module _ (env : Env) (user_id : Text) where
    notify_webhook-IsTraced :
        (req : LocationRequest) (t : Option Target)
        → IsTraced Who (notify_webhook env user_id req t)
    unfolding notify_webhook
    notify_webhook-IsTraced req none = search traced_rules
    notify_webhook-IsTraced req (some t) =
        search (traced_rules, record_integration_activity-IsTraced) depth 8

    notify_openclaw-IsTraced :
        (req : LocationRequest) (l : Lookup) → IsTraced Who (notify_openclaw env user_id req l)
    unfolding notify_openclaw
    notify_openclaw-IsTraced req lookup_error = search traced_rules
    notify_openclaw-IsTraced req no_destination = search traced_rules
    notify_openclaw-IsTraced req (destination d) =
        search (traced_rules, record_integration_activity-IsTraced) depth 8

    notify-IsTraced :
        (dj : DestJson) (req : LocationRequest) → IsTraced Who (notify env dj user_id req)
    unfolding notify
    notify-IsTraced dj req =
        search
          (
            traced_rules, lookup_webhook-IsTraced, lookup_openclaw_dest-IsTraced,
            notify_webhook-IsTraced, notify_openclaw-IsTraced,
          )
          depth 10

    post_saved-IsTraced :
        (dj : DestJson) (req : LocationRequest) (saved : Bool)
        → IsTraced Who (post_saved env dj user_id req saved)
    unfolding post_saved
    post_saved-IsTraced dj req false = search traced_rules
    post_saved-IsTraced dj req true = search (traced_rules, notify-IsTraced) depth 6

    post_decoded-IsTraced :
        (lj : LocationJson) (dj : DestJson) (req : Option LocationRequest)
        → IsTraced Who (post_decoded env lj dj user_id req)
    unfolding post_decoded write_location
    post_decoded-IsTraced lj dj none = search traced_rules
    post_decoded-IsTraced lj dj (some req) = search (traced_rules, post_saved-IsTraced) depth 8

    post_checked-IsTraced :
        (lj : LocationJson) (dj : DestJson) (req : Option LocationRequest) (v : Verdict)
        → IsTraced Who (post_checked env lj dj user_id req v)
    unfolding post_checked
    post_checked-IsTraced lj dj req v = search (traced_rules, post_decoded-IsTraced) depth 6

    show_location-IsTraced : (r : Reply CachedLocation) → IsTraced Who (show_location env user_id r)
    unfolding show_location
    show_location-IsTraced failed = search traced_rules
    show_location-IsTraced key_not_found =
        search (traced_rules, record_integration_activity-IsTraced) depth 8
    show_location-IsTraced (found loc) =
        search (traced_rules, record_integration_activity-IsTraced) depth 8

    get_checked-IsTraced :
        (lj : LocationJson) (v : Verdict) → IsTraced Who (get_checked env lj user_id v)
    unfolding get_checked
    get_checked-IsTraced lj v =
        search (traced_rules, read_location-IsTraced, show_location-IsTraced) depth 8

  pub post_location-IsTraced :
      (env : Env) (cfg : Config) (lj : LocationJson) (dj : DestJson) (req : Option LocationRequest)
      (s : Session)
      → IsTraced Who (post_location env cfg lj dj req s)
  unfolding post_location
  post_location-IsTraced env cfg lj dj req s =
      search (traced_rules, allow-IsTraced, post_checked-IsTraced) depth 6

  pub get_location-IsTraced :
      (env : Env) (cfg : Config) (lj : LocationJson) (s : Session)
      → IsTraced Who (get_location env cfg lj s)
  unfolding get_location
  get_location-IsTraced env cfg lj s =
      search (traced_rules, allow-IsTraced, get_checked-IsTraced) depth 6
