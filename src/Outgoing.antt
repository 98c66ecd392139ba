-- ===== src/Outgoing.antt =====
-- What the server sends to a user's endpoints while the user waits: TestWebhook with
-- fireUserWebhookSync, and SendOpenClawLocation with formatLocationText, of
-- internal/pingclaw/handlers.go. The formatting of numbers by fmt.Sprintf and what comes of a
-- request to an endpoint are arguments.
pub mod Registered
pub mod Traced
use pingclaw_server.Prelude.{
  ℕ, true, false, Option, none, some, [], ◌∷◌, ◌++◌, Text, codes, ltb, leb, nat_beq, if◌then◌else◌,
  ◌==◌,
}
use pingclaw_server.Text.{trim_right}
use pingclaw_server.Kv.{Reply, found, key_not_found, failed}
use pingclaw_server.World.{M, pure, ◌>>=◌, now}
use pingclaw_server.Http.{
  Float, Json, Fields, Response, str, number, float, bool, obj, end, field, write_error,
}
use pingclaw_server.Token.{Env}
use pingclaw_server.Auth.{Session}
use pingclaw_server.Account.{ok_fields}
use pingclaw_server.Webhook.{Target, lookup_webhook}
use pingclaw_server.OpenClaw.{
  Dest, DestJson, Lookup, lookup_error, no_destination, destination, lookup_openclaw_dest,
}
use pingclaw_server.Location.{CachedLocation, LocationJson, read_location}

-- A POST with a JSON body and a bearer token.
pub record Post : Type 0 where
  pub url : Text
  pub authorization : Text
  pub body : Json

abbrev pub post : Text → Text → Json → Post
post url secret body = record { url = url; authorization = codes "Bearer " ++ secret; body = body }

-- What comes of a request: http.NewRequest fails, no response, or a status.
pub data Sent : Type 0 where
  unbuilt unreachable : Sent
  answered : ℕ → Sent

-- The bits of 90.0: the North Pole.
abbrev ninety : Float
ninety = 0x4056800000000000

abbrev position_fields : Float → Float → Fields
position_fields lat lng = field "lat" (float lat) (field "lng" (float lng) end)

-- The last location, or the North Pole when there is none or it cannot be read.
abbrev pub position : Reply CachedLocation → Fields
position (found loc) = position_fields loc.lat loc.lng
position key_not_found = position_fields ninety 0
position failed = position_fields ninety 0

abbrev pub test_payload : Text → Text → Fields → Json
test_payload user_id fired_at pos = obj (
    field "event" (str (codes "webhook_test")) (
      field "test" (bool true) (
        field "user_id" (str user_id) (
          field "location" (obj pos) (
            field "fired_at" (str fired_at)
              (field "note" (str (codes "Triggered from the PingClaw dashboard.")) end))))))

-- A status of 300 or more counts as an error.
abbrev test_answer : Fields → Sent → Response
test_answer pos unbuilt = write_error 502 "webhook delivery failed"
test_answer pos unreachable = write_error 502 "webhook delivery failed"
test_answer pos (answered status) =
    if leb 300 status
    then write_error 502 "webhook delivery failed"
    else ok_fields (
        field "status" (str (codes "ok"))
          (field "delivered_status" (number status) (field "location" (obj pos) end)))

pub test_target : Env → LocationJson → (Post → Sent) → Text → Option Target → M Response
test_target env lj send user_id none = pure (write_error 404 "no webhook configured")
test_target env lj send user_id (some t) = do
  loc ← read_location lj user_id
  time ← now
  let payload = test_payload user_id (env.rfc3339 time) (position loc)
  pure (test_answer (position loc) (send (post t.url t.secret payload)))

unfoldable pub test_webhook : Env → LocationJson → (Post → Sent) → Session → M Response
unfolding test_target
test_webhook env lj send s = do t ← lookup_webhook s.user_id; test_target env lj send s.user_id t

-- fmt.Sprintf's %.4f, and its %d of a rounded float64.
pub record Format : Type 0 where
  pub fixed4 : Float → Text
  pub rounded : Float → Text

abbrev pub source_or_gps : Text → Text
source_or_gps [] = codes "gps"
source_or_gps (c ∷ source) = c ∷ source

unfoldable pub format_location_text : Format → Float → Float → Float → Text → Text
format_location_text fmt lat lon accuracy source =
    codes "Location update: "
    ++ (fmt.fixed4 lat
        ++ (codes ", "
            ++ (fmt.fixed4 lon
                ++ (codes " ±"
                    ++ (fmt.rounded accuracy
                        ++ (codes "m (" ++ (source_or_gps source ++ codes ")")))))))

abbrev pub hook_url : Dest → Text
hook_url d = trim_right (λ c. nat_beq c b'/') d.gateway_url ++ (codes "/hooks/" ++ d.hook_path)

abbrev pub hook_payload : Dest → Text → Json
hook_payload d text =
    if d.action == codes "agent"
    then obj (
        field "message" (str text)
          (field "name" (str (codes "PingClaw")) (field "deliver" (bool false) end)))
    else obj (field "text" (str text) (field "mode" (str (codes "now")) end))

abbrev known_accuracy : Option Float → Float
known_accuracy none = 0
known_accuracy (some f) = f

abbrev send_answer : CachedLocation → Text → Sent → Response
send_answer loc text unbuilt = write_error 500 "failed to build request"
send_answer loc text unreachable = ok_fields (
    field "delivered" (bool false) (
      field "error" (str (codes "gateway_unreachable"))
        (field "message" (str (codes "Could not reach the OpenClaw gateway.")) end)))
send_answer loc text (answered status) = ok_fields (
    field "delivered" (bool (ltb status 300)) (
      field "status" (number status)
        (field "location" (obj (position_fields loc.lat loc.lng)) (field "text" (str text) end))))

send_found : Format → (Post → Sent) → Dest → Reply CachedLocation → Response
send_found fmt send d failed = write_error 500 "internal error"
send_found fmt send d key_not_found =
    write_error 404 "no location data — open PingClaw on your phone first"
send_found fmt send d (found loc) =
    let text =
      format_location_text fmt loc.lat loc.lng (known_accuracy loc.accuracy_metres) (codes "gps") in
    send_answer loc text (send (post (hook_url d) d.hook_token (hook_payload d text)))

send_to : LocationJson → Format → (Post → Sent) → Text → Lookup → M Response
unfolding send_found
send_to lj fmt send user_id lookup_error = pure (write_error 500 "internal error")
send_to lj fmt send user_id no_destination =
    pure (write_error 404 "no OpenClaw gateway destination configured")
send_to lj fmt send user_id (destination d) = do
  loc ← read_location lj user_id
  pure (send_found fmt send d loc)

unfoldable pub send_openclaw_location :
    LocationJson → DestJson → Format → (Post → Sent) → Session → M Response
unfolding send_to
send_openclaw_location lj dj fmt send s = do
  d ← lookup_openclaw_dest dj s.user_id
  send_to lj fmt send s.user_id d
