-- ===== src/Location.antt =====
-- The location of a user: readLocation, writeLocation, PostLocation and GetLocation of
-- internal/pingclaw/handlers.go. The JSON of a location is given by its encoder and decoder. A
-- request starts its deliveries in goroutines of their own; here they are part of its result.
pub mod RoundTrip
pub mod Traced
use pingclaw_server.Prelude.{
  ℕ, ◌*◌, ◌^◌, Bool, true, false, ◌&&◌, Option, none, some, List, [], ◌∷◌, ◌++◌, Text, codes, ltb,
  if◌then◌else◌, ◌==◌,
}
use pingclaw_server.Prelude.Int.{ℤ}
use pingclaw_server.Kv.{Reply, found, key_not_found, failed}
use pingclaw_server.World.{World, M, pure, ◌>>=◌, ◌>>◌, now, kv_get, kv_set}
use pingclaw_server.RateLimit.{Verdict, allow}
use pingclaw_server.Http.{
  Float, Json, Fields, Response, null, str, float, obj, end, field, write_json, write_error,
  too_many,
}
use pingclaw_server.Token.{Env}
use pingclaw_server.Auth.{Session, minutes}
use pingclaw_server.Account.{Config, ok_fields, location_key}
use pingclaw_server.Integration.{record_integration_activity}
use pingclaw_server.Webhook.{Target, lookup_webhook}
use pingclaw_server.OpenClaw.{
  Dest, DestJson, Lookup, lookup_error, no_destination, destination, lookup_openclaw_dest,
}

pub record CachedLocation : Type 0 where
  pub lat : Float
  pub lng : Float
  pub accuracy_metres : Option Float
  pub timestamp : Text
  pub received_at : Text

-- json.Marshal and json.Unmarshal of a location.
pub record LocationJson : Type 0 where
  pub marshal : CachedLocation → Text
  pub unmarshal : Text → Option CachedLocation

-- 24 hours
abbrev pub location_ttl : ℤ
location_ttl = minutes (24 * 60)

abbrev pub decoded : Option CachedLocation → Reply CachedLocation
decoded none = failed
decoded (some loc) = found loc

abbrev pub location_reply : LocationJson → Reply Text → Reply CachedLocation
location_reply lj (found raw) = decoded (lj.unmarshal raw)
location_reply lj key_not_found = key_not_found
location_reply lj failed = failed

-- `key_not_found` stands for the location that is not there.
unfoldable pub read_location : LocationJson → Text → M (Reply CachedLocation)
read_location lj user_id = do raw ← kv_get (location_key user_id); pure (location_reply lj raw)

unfoldable pub write_location : LocationJson → Text → CachedLocation → M Bool
write_location lj user_id loc = kv_set (location_key user_id) (lj.marshal loc) location_ttl

pub record LocationRequest : Type 0 where
  pub timestamp : Text
  pub lat : Float
  pub lng : Float
  pub accuracy_metres : Float

-- A float64 that a JSON number was decoded to is above zero: its sign bit is clear and it is not 0.
abbrev pub above_zero : Float → Bool
above_zero f = ltb 0 f && ltb f (2 ^ 63)

abbrev pub timestamp_or : Text → Text → Text
timestamp_or server_time [] = server_time
timestamp_or server_time (c ∷ t) = c ∷ t

-- The request with its time filled in.
abbrev pub stamped : Text → LocationRequest → LocationRequest
stamped server_time req = record req { timestamp = timestamp_or server_time req.timestamp }

abbrev pub location_of : Text → LocationRequest → CachedLocation
location_of server_time req = record {
  lat = req.lat;
  lng = req.lng;
  accuracy_metres = if above_zero req.accuracy_metres then some req.accuracy_metres else none;
  timestamp = timestamp_or server_time req.timestamp;
  received_at = server_time;
}

-- fireUserWebhook and deliverToOpenClaw, started in goroutines.
pub data Delivery : Type 0 where
  to_webhook : Target → Text → Json → Delivery
  to_openclaw : Dest → LocationRequest → Text → Delivery

abbrev location_update : Text → Text → LocationRequest → Json
location_update user_id server_time req = obj (
    field "event" (str (codes "location_update")) (
      field "user_id" (str user_id) (
        field "timestamp" (str req.timestamp) (
          field "server_time" (str server_time) (
            field "location"
              (obj (
                field "lat" (float req.lat) (
                  field "lng" (float req.lng)
                    (field "accuracy_metres" (float req.accuracy_metres) end))))
              end)))))

notify_webhook : Env → Text → LocationRequest → Option Target → M (List Delivery)
notify_webhook env user_id req none = pure []
notify_webhook env user_id req (some t) = do
  time ← now
  record_integration_activity env user_id "webhook"
  pure (to_webhook t user_id (location_update user_id (env.rfc3339 time) req) ∷ [])

notify_openclaw : Env → Text → LocationRequest → Lookup → M (List Delivery)
notify_openclaw env user_id req lookup_error = pure []
notify_openclaw env user_id req no_destination = pure []
notify_openclaw env user_id req (destination d) = do
  record_integration_activity env user_id "openclaw"
  pure (to_openclaw d req (codes "gps") ∷ [])

pub notify : Env → DestJson → Text → LocationRequest → M (List Delivery)
unfolding notify_webhook notify_openclaw
notify env dj user_id req = do
  hook ← lookup_webhook user_id
  sent ← notify_webhook env user_id req hook
  dest ← lookup_openclaw_dest dj user_id
  more ← notify_openclaw env user_id req dest
  pure (sent ++ more)

pub post_saved : Env → DestJson → Text → LocationRequest → Bool → M (Response × List Delivery)
unfolding notify
post_saved env dj user_id req false = pure (write_error 500 "failed to save location", [])
post_saved env dj user_id req true = do
  deliveries ← notify env dj user_id req
  pure (ok_fields (field "status" (str (codes "ok")) end), deliveries)

pub post_decoded :
    Env → LocationJson → DestJson → Text → Option LocationRequest → M (Response × List Delivery)
unfolding post_saved
post_decoded env lj dj user_id none = pure (write_error 400 "invalid request body", [])
post_decoded env lj dj user_id (some req) = do
  time ← now
  saved ← write_location lj user_id (location_of (env.rfc3339 time) req)
  post_saved env dj user_id (stamped (env.rfc3339 time) req) saved

pub post_checked :
    Env
    → LocationJson
    → DestJson
    → Text
    → Option LocationRequest
    → Verdict
    → M (Response × List Delivery)
unfolding post_decoded
post_checked env lj dj user_id req v =
    if v.allowed
    then post_decoded env lj dj user_id req
    else pure (too_many v.retry_after "too many location updates — try again later", [])

unfoldable pub post_location :
    Env
    → Config
    → LocationJson
    → DestJson
    → Option LocationRequest
    → Session
    → M (Response × List Delivery)
unfolding post_checked
post_location env cfg lj dj req s = do
  v ← allow cfg.limiter_fast (codes "rl:loc:post:" ++ s.user_id) cfg.location_post_per_minute
  post_checked env lj dj s.user_id req v

abbrev pub or_null : Option Float → Json
or_null none = null
or_null (some f) = float f

abbrev pub located : Text → CachedLocation → Response
located server_time loc = ok_fields (
    field "status" (str (codes "ok")) (
      field "server_time" (str server_time) (
        field "timestamp" (str loc.timestamp) (
          field "location"
            (obj (
              field "lat" (float loc.lat) (
                field "lng" (float loc.lng)
                  (field "accuracy_metres" (or_null loc.accuracy_metres) end))))
            end))))

pub show_location : Env → Text → Reply CachedLocation → M Response
show_location env user_id failed = pure (write_error 500 "internal error")
show_location env user_id key_not_found = do
  record_integration_activity env user_id "api"
  time ← now
  pure (
      ok_fields (
        field "status" (str (codes "no_location"))
          (field "server_time" (str (env.rfc3339 time)) end)))
show_location env user_id (found loc) = do
  record_integration_activity env user_id "api"
  time ← now
  pure (located (env.rfc3339 time) loc)

pub get_checked : Env → LocationJson → Text → Verdict → M Response
unfolding show_location
get_checked env lj user_id v =
    if v.allowed
    then (do loc ← read_location lj user_id; show_location env user_id loc)
    else pure (too_many v.retry_after "too many requests — try again later")

unfoldable pub get_location : Env → Config → LocationJson → Session → M Response
unfolding get_checked
get_location env cfg lj s = do
  v ← allow cfg.limiter_fast (codes "rl:loc:get:" ++ s.user_id) cfg.location_get_per_minute
  get_checked env lj s.user_id v
