-- ===== src/Webhook.antt =====
-- The outgoing webhook of a user: lookupWebhook with its cache, PutWebhook, GetWebhook and
-- DeleteWebhook of internal/pingclaw/handlers.go. `parse_url` is url.Parse.
pub mod Cache
pub mod Traced
use pingclaw_server.Prelude.{
  ℕ, Bool, true, false, not, ◌&&◌, ◌||◌, Option, none, some, List, [], ◌∷◌, ◌++◌, Text, codes,
  if◌then◌else◌, ◌==◌,
}
use pingclaw_server.Prelude.Int.{ℤ}
use pingclaw_server.Text.{trim_space, cut_first}
use pingclaw_server.Kv.{Reply, found, key_not_found, failed}
use pingclaw_server.Db.{Db, Webhook, webhook_of, upsert_webhook, delete_webhook}
use pingclaw_server.World.{World, M, pure, ◌>>=◌, ◌>>◌, kv_get, kv_set, kv_del, db_query, db_exec}
use pingclaw_server.Http.{Json, Response, null, str, obj, end, field, write_json, write_error}
use pingclaw_server.Auth.{Session, minutes}
use pingclaw_server.PrivateIp.{Net, is_private_host}
use pingclaw_server.Account.{ok_fields, webhook_cache_key}

-- hookURL and secret.
pub record Target : Type 0 where
  pub url : Text
  pub secret : Text

abbrev pub webhook_cache_ttl : ℤ
webhook_cache_ttl = minutes 5

abbrev pub webhook_cache_none : Text
webhook_cache_none = codes "__none__"

-- Cached as "url\nsecret".
abbrev pub cached_target : Text → Text → Text
cached_target url secret = url ++ (10 ∷ secret)

-- What a cache entry says: no webhook, a target, or nothing.
pub data Hit : Type 0 where
  no_webhook : Hit
  target : Target → Hit
  miss : Hit

abbrev pub split_target : Option (Text × Text) → Hit
split_target none = miss
split_target (some ([], secret)) = miss
split_target (some (c ∷ url, secret)) = target (record { url = c ∷ url; secret = secret })

abbrev pub read_cache : Reply Text → Hit
read_cache (found v) = if v == webhook_cache_none then no_webhook else split_target (cut_first 10 v)
read_cache key_not_found = miss
read_cache failed = miss

abbrev remember_none : Text → M (Option Target)
remember_none user_id = do
  kv_set (webhook_cache_key user_id) webhook_cache_none webhook_cache_ttl
  pure none

remember : Text → Text → Text → M (Option Target)
remember user_id [] secret = remember_none user_id
remember user_id (c ∷ url) secret = do
  kv_set (webhook_cache_key user_id) (cached_target (c ∷ url) secret) webhook_cache_ttl
  pure (some (record { url = c ∷ url; secret = secret }))

-- An error of the query counts as no webhook.
load_webhook : Text → Option (Option Webhook) → M (Option Target)
unfolding remember
load_webhook user_id none = remember_none user_id
load_webhook user_id (some none) = remember_none user_id
load_webhook user_id (some (some r)) = remember user_id r.url r.secret

use_cache : Text → Hit → M (Option Target)
unfolding load_webhook
use_cache user_id no_webhook = pure none
use_cache user_id (target t) = pure (some t)
use_cache user_id miss = do row ← db_query (webhook_of user_id); load_webhook user_id row

unfoldable pub lookup_webhook : Text → M (Option Target)
unfolding use_cache
lookup_webhook user_id = do
  cached ← kv_get (webhook_cache_key user_id)
  use_cache user_id (read_cache cached)

pub record Url : Type 0 where
  pub scheme : Text
  pub host : Text
  pub hostname : Text

pub record WebhookRequest : Type 0 where
  pub url : Text
  pub secret : Text

-- The checks of PutWebhook, with the response to the first that fails.
abbrev pub bad_url : Option Url → Bool
bad_url none = true
bad_url (some u) = not (u.scheme == codes "http" || u.scheme == codes "https") || u.host == []

abbrev pub hostname_of : Option Url → Text
hostname_of none = []
hostname_of (some u) = u.hostname

abbrev pub refusal : Net → (Text → Option Url) → Bool → Text → Text → Option Response
refusal net parse_url local_mode url secret =
    if url == []
    then some (write_error 400 "url is required")
    else if secret == []
    then some (write_error 400 "secret is required")
    else if bad_url (parse_url url)
    then some (write_error 400 "url must be a valid http(s) URL")
    else if not local_mode && is_private_host net (hostname_of (parse_url url))
    then some (write_error 400 "webhook URL must not point to a private or reserved address")
    else none

pub save_webhook : Text → Text → Text → M Response
save_webhook user_id url secret = do
  saved ← db_exec (λ now. upsert_webhook now user_id url secret)
  if saved then invalidate else pure (write_error 500 "failed to save webhook")
  where
    invalidate : M Response
    invalidate = do
      kv_del (webhook_cache_key user_id)
      pure (ok_fields (field "status" (str (codes "ok")) (field "url" (str url) end)))

pub save_unless : Option Response → Text → Text → Text → M Response
unfolding save_webhook
save_unless (some r) user_id url secret = pure r
save_unless none user_id url secret = save_webhook user_id url secret

unfoldable pub put_webhook :
    Net → (Text → Option Url) → Bool → Option WebhookRequest → Session → M Response
unfolding save_unless
put_webhook net parse_url local_mode none s = pure (write_error 400 "invalid request body")
put_webhook net parse_url local_mode (some req) s =
    save_unless (refusal net parse_url local_mode (trim_space req.url) (trim_space req.secret))
      s.user_id (trim_space req.url) (trim_space req.secret)

abbrev pub shown : Option Target → Response
shown none = ok_fields (field "url" null (field "webhook_secret" null end))
shown (some t) = ok_fields (field "url" (str t.url) (field "webhook_secret" (str t.secret) end))

unfoldable pub get_webhook : Session → M Response
get_webhook s = do t ← lookup_webhook s.user_id; pure (shown t)

unfoldable pub delete_user_webhook : Session → M Response
delete_user_webhook s = do
  ok ← db_exec (λ now. delete_webhook s.user_id)
  if ok then invalidate else pure (write_error 500 "failed to delete webhook")
  where
    invalidate : M Response
    invalidate = do
      kv_del (webhook_cache_key s.user_id)
      pure (ok_fields (field "status" (str (codes "deleted")) end))
