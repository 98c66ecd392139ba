-- ===== src/Examples/Gateways.antt =====
-- A gateway that is registered on the concrete server.
use pingclaw_server.Prelude.{ℕ, ◌≡◌, refl, false, Option, none, some, [], ◌∷◌, Text, codes}
use pingclaw_server.Text.{trim_space, trim_right}
use pingclaw_server.Db.{upsert_destination}
use pingclaw_server.World.{kv_del, db_exec}
use pingclaw_server.PrivateIp.{v4, Net, is_private_host, is_private_ip}
use pingclaw_server.Webhook.{Url}
use pingclaw_server.Http.{Response}
use pingclaw_server.Http.Reading.{body_of, at}
use pingclaw_server.OpenClaw.{Dest, DestJson, register_openclaw_dest, get_openclaw_dest}
use pingclaw_server.OpenClaw.Registered.{Shows, register-get_openclaw_dest}
use pingclaw_server.Examples.{world, session, world-IsHealthy}

abbrev net : Net
net = record {
  lookup_host = λ host. some (codes "8.8.8.8" ∷ []);
  parse_ip = λ ip. some (v4 8 8 8 8);
  wide_lower = λ c. c;
}

abbrev parse_url : Text → Option Url
parse_url t = some (record { scheme = codes "https"; host = codes "h"; hostname = codes "h" })

abbrev probe : Dest → Option ℕ
probe d = some 200

abbrev dest_json : DestJson
dest_json = record { marshal = λ d. []; unmarshal = λ t. none }

abbrev request : Dest
request = record {
  destination_id = [];
  gateway_url = codes " https://h/ ";
  hook_token = codes "t";
  hook_path = [];
  action = [];
  session_key = [];
}

registered :
    (register_openclaw_dest net parse_url probe false
      (codes "1")
      (some request)
      session
      world).0.status
    ≡ 201
unfolding register_openclaw_dest trim_space trim_right is_private_host is_private_ip db_exec kv_del
    upsert_destination
registered = refl

abbrev answered : Response
answered =
    (get_openclaw_dest dest_json session
      (register_openclaw_dest net parse_url probe false (codes "1") (some request) session
        world).1).0

register-get_openclaw_dest_example :
    (answered.status ≡ 200) × Shows (codes "1") request (at "destination" (body_of answered))
register-get_openclaw_dest_example =
    register-get_openclaw_dest net parse_url probe false (codes "1") request dest_json session world
      world-IsHealthy registered
