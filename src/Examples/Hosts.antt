-- ===== src/Examples/Hosts.antt =====
-- Sign-in, outgoing requests and client addresses at concrete values.
use pingclaw_server.Prelude.{
  ℕ, zero, suc, ◌≡◌, refl, true, false, Option, none, some, [], ◌∷◌, ◌⊎◌, arith, Text, codes, ◌==◌,
  ◌++◌, ◌&&◌, if◌then◌else◌,
}
use pingclaw_server.Text.{trim_space, trim_right}
use pingclaw_server.Db.{identity_in, is_some, insert_user, insert_identity}
use pingclaw_server.World.{db_query, db_exec, kv_del}
use pingclaw_server.ClientIp.{client_ip, client_ip-append}
use pingclaw_server.SocialAuth.{
  Parse, subject, panicked, verify_apple, verify_google, google_issuers, google_methods,
}
use pingclaw_server.SocialAuth.Audiences.{AcceptedFor, verify_google_sound, verify_all_empty}
use pingclaw_server.SignIn.{find_or_create_social_user}
use pingclaw_server.SignIn.Users.{identity_user, find_or_create_links}
use pingclaw_server.PrivateIp.{
  v4, Net, is_private_ip, is_local_name, is_private_host, pinned, dial_context,
}
use pingclaw_server.PrivateIp.Ranges.{address, blocked_range, is_private_ip-range}
use pingclaw_server.PrivateIp.Dialing.{Allows, dial_context_pinned, dial_context_unparsed}
use pingclaw_server.Webhook.{Url, WebhookRequest, put_webhook}
use pingclaw_server.Location.{LocationJson}
use pingclaw_server.Outgoing.{
  Format, format_location_text, hook_payload, Post, Sent, unreachable, answered, test_webhook,
}
use pingclaw_server.Outgoing.Registered.{put_webhook-test_webhook}
use pingclaw_server.OpenClaw.{Dest}
use pingclaw_server.OpenClaw.Delivery.{Deliveries, deliver_to_openclaw, deliver_to_openclaw-retries}
use pingclaw_server.Db.{upsert_webhook}
use pingclaw_server.Examples.{env, world, session, world-IsHealthy}

abbrev audience : Text
audience = codes "app"

abbrev parse : Parse
parse iss aud methods token = if token == codes "good" then some (codes "s1") else none

apple_ok :
    verify_apple (record { audiences = [] ∷ audience ∷ []; jwks = some parse }) (codes "good")
    ≡ subject (codes "s1")
unfolding verify_apple
apple_ok = refl

google_ok :
    verify_google (record { audiences = [] ∷ audience ∷ []; jwks = some parse }) (codes "good")
    ≡ subject (codes "s1")
unfolding verify_google google_issuers
google_ok = refl

verify_google_sound_example :
    AcceptedFor parse google_issuers google_methods ([] ∷ audience ∷ []) (codes "good") (codes "s1")
verify_google_sound_example =
    verify_google_sound ([] ∷ audience ∷ []) parse (codes "good") (codes "s1") google_ok

verify_all_empty_example :
    (verify_apple (record { audiences = [] ∷ []; jwks = some parse }) (codes "good") ≡ panicked)
    × (verify_google (record { audiences = [] ∷ []; jwks = some parse }) (codes "good") ≡ panicked)
verify_all_empty_example = verify_all_empty ([] ∷ []) parse (codes "good") refl

abbrev apple : Text
apple = codes "apple"

find_or_create_links_example :
    ((is_some (find_or_create_social_user (codes "b") apple (codes "s1") world).0 ≡ true)
      × (identity_user (
            identity_in apple
              (codes "s1")
              (find_or_create_social_user (codes "b") apple (codes "s1") world).1.db.identities)
          ≡ (find_or_create_social_user (codes "b") apple (codes "s1") world).0))
    ⊎ (((find_or_create_social_user (codes "b") apple (codes "s1") world).0 ≡ none)
        × ((find_or_create_social_user (codes "b") apple (codes "s1") world).1.db.identities
            ≡ world.db.identities))
find_or_create_links_example = find_or_create_links (codes "b") apple (codes "s1") world

created : (find_or_create_social_user (codes "b") apple (codes "s1") world).0 ≡ some (codes "usr_b")
unfolding find_or_create_social_user db_query db_exec insert_user insert_identity
created = refl

-- A resolver that knows one host, and a parser that knows one address.
abbrev net : Net
net = record {
  lookup_host = λ host. some (codes "8.8.8.8" ∷ []);
  parse_ip = λ ip. some (v4 8 8 8 8);
  wide_lower = λ c. c;
}

abbrev zoned : Net
zoned = record net { parse_ip = λ ip. none }

abbrev host : Text
host = codes "h"

dialled : dial_context net false (some (host, codes "443")) ≡ pinned (codes "8.8.8.8") (codes "443")
unfolding dial_context is_private_ip
dialled = refl

dial_context_pinned_example :
    Allows net host (codes "443") (dial_context net false (some (host, codes "443")))
dial_context_pinned_example = dial_context_pinned net host (codes "443")

passed : is_private_host net host ≡ false
unfolding is_private_host is_private_ip
passed = refl

dial_context_unparsed_example :
    (dial_context zoned false (some (host, codes "443")) ≡ pinned (codes "8.8.8.8") (codes "443"))
    × (is_private_host zoned host ≡ is_local_name zoned host)
dial_context_unparsed_example =
    dial_context_unparsed zoned host (codes "443") (codes "8.8.8.8") refl refl

is_private_ip-range_example : is_private_ip (v4 172 31 0 1) ≡ blocked_range (address 172 31 0 1)
is_private_ip-range_example =
    is_private_ip-range 172 31 0 1 (omega arith) (omega arith) (omega arith) (omega arith)

abbrev parse_url : Text → Option Url
parse_url t = some (record { scheme = codes "https"; host = host; hostname = host })

abbrev request : WebhookRequest
request = record { url = codes " https://h "; secret = codes "s" }

-- An endpoint that takes whatever bears the right secret at the right place.
abbrev accept : Post → Sent
accept p =
    if p.url == codes "https://h" && p.authorization == codes "Bearer s"
    then answered 204
    else unreachable

abbrev locations : LocationJson
locations = record { marshal = λ loc. []; unmarshal = λ t. none }

saved : (put_webhook net parse_url false (some request) session world).0.status ≡ 200
unfolding put_webhook trim_space is_private_host is_private_ip db_exec kv_del upsert_webhook
saved = refl

put_webhook-test_webhook_example :
    (test_webhook env locations accept session
      (put_webhook net parse_url false (some request) session world).1).0.status
    ≡ 200
unfolding trim_space
put_webhook-test_webhook_example =
    put_webhook-test_webhook net parse_url false request env locations accept (answered 204) session
      world world-IsHealthy saved (λ body. refl)

client_ip-append_example :
    client_ip
      (record { forwarded_for = codes "1.2.3.4, 5.6.7.8"; remote_addr = codes "10.0.0.1:80" })
    ≡ trim_space (codes " 5.6.7.8")
client_ip-append_example =
    client_ip-append (codes "1.2.3.4") (codes " 5.6.7.8") (codes "10.0.0.1:80") refl

abbrev format : Format
format = record { fixed4 = λ f. codes "0.0000"; rounded = λ f. codes "0" }

-- A gateway that is down once.
abbrev flaky : ℕ → Post → Sent
flaky zero p = unreachable
flaky (suc n) p = answered 200

abbrev gateway : Dest
gateway = record {
  destination_id = codes "dest_1";
  gateway_url = codes "https://g/";
  hook_token = codes "t";
  hook_path = codes "pc";
  action = codes "agent";
  session_key = [];
}

deliver_to_openclaw-retries_example :
    Deliveries flaky
      (record {
        url = codes "https://g" ++ (codes "/hooks/" ++ codes "pc");
        authorization = codes "Bearer " ++ codes "t";
        body = hook_payload gateway (format_location_text format 0 0 0 (codes "gps"));
      })
      (deliver_to_openclaw format flaky gateway 0 0 0 (codes "gps"))
unfolding trim_right
deliver_to_openclaw-retries_example =
    deliver_to_openclaw-retries format flaky gateway 0 0 0 (codes "gps")
