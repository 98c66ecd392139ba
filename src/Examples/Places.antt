-- ===== src/Examples/Places.antt =====
-- Locations, the tools and the endpoints on the concrete server.
use pingclaw_server.Prelude.{◌≡◌, refl, true, none, some, [], arith, codes, if◌then◌else◌}
use pingclaw_server.Text.{has_prefix, trim_prefix, hex_encode}
use pingclaw_server.Db.{token_with}
use pingclaw_server.World.{World, at, kv_get, kv_set, kv_incr, kv_expire, kv_ttl, db_query, db_exec}
use pingclaw_server.RateLimit.{allow}
use pingclaw_server.Http.{write_error}
use pingclaw_server.Token.{hash_token}
use pingclaw_server.Auth.{rejected, admitted, bearer, check_auth}
use pingclaw_server.Webhook.{lookup_webhook}
use pingclaw_server.OpenClaw.{DestJson, lookup_openclaw_dest}
use pingclaw_server.Location.{
  LocationJson, LocationRequest, location_of, located, post_location, get_location, write_location,
}
use pingclaw_server.Location.RoundTrip.{post_location-get_location}
use pingclaw_server.Mcp.{mcp_auth_middleware, mcp_admitted, HoldsApiKey, mcp_auth_middleware_sound}
use pingclaw_server.Routes.{rotate_api_key, kinds_of, is_for_owner, api_key_confined}
use pingclaw_server.Examples.{
  env, alice, api_key, old_authorization, key_row, world, session, config, world-IsHealthy,
  world-IsCoherent,
}

abbrev request : LocationRequest
request = record { timestamp = []; lat = 5; lng = 6; accuracy_metres = 7 }

-- The only location that is ever encoded.
abbrev location_json : LocationJson
location_json = record {
  marshal = λ loc. codes "here";
  unmarshal = λ t. some (location_of (codes "now") request);
}

abbrev dest_json : DestJson
dest_json = record { marshal = λ d. []; unmarshal = λ t. none }

abbrev posted : World
posted = at 2000 (post_location env config location_json dest_json (some request) session world).1

post_passes : (allow config.limiter_fast (codes "rl:loc:post:usr_a") 10 world).0.allowed ≡ true
unfolding allow kv_incr kv_expire kv_ttl
post_passes = refl

get_passes : (allow config.limiter_fast (codes "rl:loc:get:usr_a") 10 posted).0.allowed ≡ true
unfolding post_location allow kv_incr kv_expire kv_ttl write_location kv_set kv_get db_query
    lookup_webhook lookup_openclaw_dest
get_passes = refl

post_location-get_location_example :
    (get_location env config location_json session posted).0
    ≡ located (codes "now") (location_of (codes "now") request)
post_location-get_location_example =
    post_location-get_location env config location_json dest_json request session world 2000
      world-IsHealthy post_passes refl (omega arith) get_passes

prefix_there : has_prefix old_authorization bearer ≡ true
unfolding has_prefix
prefix_there = refl

row_there :
    token_with (hash_token env (trim_prefix old_authorization bearer)) world.db ≡ some key_row
unfolding hash_token trim_prefix hex_encode
row_there = refl

mcp_passes : (mcp_auth_middleware env old_authorization world).0 ≡ mcp_admitted alice
unfolding mcp_auth_middleware db_query db_exec hash_token trim_prefix hex_encode
mcp_passes = refl

mcp_auth_middleware_sound_example : HoldsApiKey env old_authorization world alice
mcp_auth_middleware_sound_example =
    mcp_auth_middleware_sound env old_authorization alice world mcp_passes

api_key_confined_example : (check_auth env (kinds_of rotate_api_key) old_authorization world).0 ≡ (
    if is_for_owner rotate_api_key
    then rejected (write_error 403 "this token type cannot access this endpoint")
    else admitted (record { user_id = alice; kind = api_key }))
api_key_confined_example =
    api_key_confined env old_authorization rotate_api_key world key_row world-IsHealthy
      world-IsCoherent prefix_there row_there refl
