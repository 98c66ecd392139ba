-- ===== src/OpenClaw.antt =====
-- The OpenClaw gateway of a user: lookupOpenClawDest with its cache, and the handlers that
-- register, show, delete and test a destination, in internal/pingclaw/handlers.go. The JSON of a
-- destination is given by its encoder and decoder, and `probe` is what the gateway answers to the
-- verification POST of testOpenClawDelivery: a status, or `none` if it cannot be reached.
pub mod Delivery
pub mod Registered
pub mod Traced
use pingclaw_server.Prelude.{
  ℕ, ◌+◌, ◌-◌, Bool, true, false, not, ◌&&◌, ◌||◌, Option, none, some, List, [], ◌∷◌, ◌++◌, String,
  Text, codes, ltb, leb, nat_beq, all, if◌then◌else◌, ◌==◌,
}
use pingclaw_server.Prelude.Int.{ℤ}
use pingclaw_server.Text.{trim_space, trim_right}
use pingclaw_server.Text.Number.{format_uint}
use pingclaw_server.Kv.{Reply, found, key_not_found, failed}
use pingclaw_server.Db.{Db, Destination, destination_of, upsert_destination, delete_destination}
use pingclaw_server.World.{World, M, pure, ◌>>=◌, ◌>>◌, kv_get, kv_set, kv_del, db_query, db_exec}
use pingclaw_server.Http.{
  Json, Fields, Response, null, str, bool, obj, end, field, write_json, write_error,
}
use pingclaw_server.Auth.{Session, minutes}
use pingclaw_server.PrivateIp.{Net, is_private_host}
use pingclaw_server.Webhook.{Url, bad_url, hostname_of}
use pingclaw_server.Account.{ok_fields, openclaw_dest_cache_key}

-- openclawGatewayDest
pub record Dest : Type 0 where
  pub destination_id : Text
  pub gateway_url : Text
  pub hook_token : Text
  pub hook_path : Text
  pub action : Text
  pub session_key : Text

-- json.Marshal and json.Unmarshal of a destination.
pub record DestJson : Type 0 where
  pub marshal : Dest → Text
  pub unmarshal : Text → Option Dest

abbrev pub openclaw_dest_cache_ttl : ℤ
openclaw_dest_cache_ttl = minutes 5

abbrev pub openclaw_dest_cache_none : Text
openclaw_dest_cache_none = codes "__none__"

-- What a cache entry says: no destination, a destination, or nothing.
pub data Hit : Type 0 where
  no_dest : Hit
  dest : Dest → Hit
  miss : Hit

abbrev decoded : Option Dest → Hit
decoded none = miss
decoded (some d) = dest d

abbrev pub read_cache : DestJson → Reply Text → Hit
read_cache dj (found v) =
    if v == openclaw_dest_cache_none then no_dest else decoded (dj.unmarshal v)
read_cache dj key_not_found = miss
read_cache dj failed = miss

abbrev pub dest_of : Destination → Dest
dest_of r = record {
  destination_id = r.destination_id;
  gateway_url = r.gateway_url;
  hook_token = r.hook_token;
  hook_path = r.hook_path;
  action = r.action;
  session_key = r.session_key;
}

-- The result of lookupOpenClawDest: an error, or a destination if there is one.
pub data Lookup : Type 0 where
  lookup_error : Lookup
  no_destination : Lookup
  destination : Dest → Lookup

load_dest : DestJson → Text → Option (Option Destination) → M Lookup
load_dest dj user_id none = pure lookup_error
load_dest dj user_id (some none) = do
  kv_set (openclaw_dest_cache_key user_id) openclaw_dest_cache_none openclaw_dest_cache_ttl
  pure no_destination
load_dest dj user_id (some (some r)) = do
  kv_set (openclaw_dest_cache_key user_id) (dj.marshal (dest_of r)) openclaw_dest_cache_ttl
  pure (destination (dest_of r))

use_cache : DestJson → Text → Hit → M Lookup
unfolding load_dest
use_cache dj user_id no_dest = pure no_destination
use_cache dj user_id (dest d) = pure (destination d)
use_cache dj user_id miss = do row ← db_query (destination_of user_id); load_dest dj user_id row

unfoldable pub lookup_openclaw_dest : DestJson → Text → M Lookup
unfolding use_cache
lookup_openclaw_dest dj user_id = do
  cached ← kv_get (openclaw_dest_cache_key user_id)
  use_cache dj user_id (read_cache dj cached)

-- hookPathRe, ^[a-zA-Z0-9][a-zA-Z0-9-]*$
abbrev pub is_alphanumeric : ℕ → Bool
is_alphanumeric c =
    (leb b'a' c && leb c b'z') || (leb b'A' c && leb c b'Z') || (leb b'0' c && leb c b'9')

abbrev pub hook_path_ok : Text → Bool
hook_path_ok [] = false
hook_path_ok (c ∷ s) = is_alphanumeric c && all (λ x. is_alphanumeric x || nat_beq x b'-') s

abbrev pub or_default : Text → Text → Text
or_default default [] = default
or_default default (c ∷ s) = c ∷ s

-- The request of RegisterOpenClawDest, with its fields trimmed and the defaults filled in.
abbrev pub cleaned : Dest → Dest
cleaned r = record {
  destination_id = r.destination_id;
  gateway_url = trim_space (trim_right (λ c. nat_beq c b'/') (trim_space r.gateway_url));
  hook_token = trim_space r.hook_token;
  hook_path = or_default (codes "pingclaw") (trim_space r.hook_path);
  action = or_default (codes "wake") (trim_space r.action);
  session_key = trim_space r.session_key;
}

abbrev pub refusal : Net → (Text → Option Url) → Bool → Dest → Option Response
refusal net parse_url local_mode d =
    if d.gateway_url == []
    then some (write_error 400 "gateway_url is required")
    else if bad_url (parse_url d.gateway_url)
    then some (write_error 400 "gateway_url must be a valid http(s) URL")
    else if not local_mode && is_private_host net (hostname_of (parse_url d.gateway_url))
    then some (write_error 400 "gateway URL must not point to a private or reserved address")
    else if d.hook_token == []
    then some (write_error 400 "hook_token is required")
    else if not (hook_path_ok d.hook_path)
    then some (write_error 400 "hook_path must be alphanumeric with hyphens only, no slashes")
    else if not (d.action == codes "wake" || d.action == codes "agent")
    then some (write_error 400 "action must be 'wake' or 'agent'")
    else none

abbrev problem : String → Text → Response
problem error message =
    write_json 422 (obj (field "error" (str (codes error)) (field "message" (str message) end)))

abbrev pub probe_refusal : Option ℕ → Option Response
probe_refusal none = some (
    problem "gateway_unreachable"
      (codes "Could not reach the OpenClaw gateway. Check the URL and ensure hooks are enabled."))
probe_refusal (some status) =
    if nat_beq status 401
    then some (
        problem "gateway_auth_failed"
          (codes "The gateway rejected the hook token. Check hooks.token in your openclaw.json."))
    else if leb 300 status
    then some (
        problem "gateway_unreachable" (
          codes "The gateway returned HTTP "
          ++ (format_uint status ++ codes ". Check your gateway configuration.")))
    else none

abbrev pub shown_fields : Dest → Fields → Fields
shown_fields d rest = field "destination_id" (str d.destination_id) (
    field "type" (str (codes "openclaw_gateway")) (
      field "gateway_url" (str d.gateway_url)
        (field "hook_path" (str d.hook_path) (field "action" (str d.action) rest))))

abbrev pub row_of : Text → Dest → Destination
row_of user_id d = record {
  destination_id = d.destination_id;
  user_id = user_id;
  gateway_url = d.gateway_url;
  hook_token = d.hook_token;
  hook_path = d.hook_path;
  action = d.action;
  session_key = d.session_key;
  created_at = 0;
  updated_at = 0;
}

pub save_dest : Text → Dest → M Response
save_dest user_id d = do
  saved ← db_exec (λ now. upsert_destination now (row_of user_id d))
  if saved then invalidate else pure (write_error 500 "failed to save destination")
  where
    invalidate : M Response
    invalidate = do
      kv_del (openclaw_dest_cache_key user_id)
      pure (write_json 201 (obj (shown_fields d (field "verified" (bool true) end))))

pub verify_and_save : (Dest → Option ℕ) → Text → Dest → Option Response → M Response
unfolding save_dest
verify_and_save probe user_id d (some r) = pure r
verify_and_save probe user_id d none = probed (probe_refusal (probe d))
  where
    probed : Option Response → M Response
    probed (some r) = pure r
    probed none = save_dest user_id d

-- `uuid` is the random part of the new identifier.
unfoldable pub register_openclaw_dest :
    Net → (Text → Option Url) → (Dest → Option ℕ) → Bool → Text → Option Dest → Session → M Response
unfolding verify_and_save
register_openclaw_dest net parse_url probe local_mode uuid none s =
    pure (write_error 400 "invalid request body")
register_openclaw_dest net parse_url probe local_mode uuid (some req) s =
    let d = record (cleaned req) { destination_id = codes "dest_" ++ uuid } in
    verify_and_save probe s.user_id d (refusal net parse_url local_mode d)

abbrev pub shown : Lookup → Response
shown lookup_error = write_error 500 "internal error"
shown no_destination = ok_fields (field "destination" null end)
shown (destination d) =
    ok_fields
      (field "destination" (obj (shown_fields d (field "session_key" (str d.session_key) end))) end)

unfoldable pub get_openclaw_dest : DestJson → Session → M Response
get_openclaw_dest dj s = do d ← lookup_openclaw_dest dj s.user_id; pure (shown d)

unfoldable pub delete_openclaw_dest : Session → M Response
delete_openclaw_dest s = do
  ok ← db_exec (λ now. delete_destination s.user_id)
  if ok then invalidate else pure (write_error 500 "failed to delete destination")
  where
    invalidate : M Response
    invalidate = do
      kv_del (openclaw_dest_cache_key s.user_id)
      pure (ok_fields (field "status" (str (codes "deleted")) end))

abbrev tested : Dest → Option ℕ → Response
tested d none = ok_fields (
    field "verified" (bool false) (
      field "destination_id" (str d.destination_id) (
        field "error" (str (codes "gateway_unreachable"))
          (field "message" (str (codes "Could not reach the OpenClaw gateway.")) end))))
tested d (some status) =
    if nat_beq status 401
    then ok_fields (
        field "verified" (bool false) (
          field "destination_id" (str d.destination_id) (
            field "error" (str (codes "gateway_auth_failed"))
              (field "message" (str (codes "The gateway rejected the hook token.")) end))))
    else ok_fields (field "verified" (bool (ltb status 300)) (shown_fields d end))

test_found : (Dest → Option ℕ) → Lookup → Response
test_found probe lookup_error = write_error 500 "internal error"
test_found probe no_destination = write_error 404 "no OpenClaw gateway destination configured"
test_found probe (destination d) = tested d (probe d)

unfoldable pub test_openclaw_dest : DestJson → (Dest → Option ℕ) → Session → M Response
unfolding test_found
test_openclaw_dest dj probe s = do d ← lookup_openclaw_dest dj s.user_id; pure (test_found probe d)
