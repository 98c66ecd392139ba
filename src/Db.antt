-- ===== src/Db.antt =====
-- The tables of applySchema and applySQLiteSchema (cmd/pingclaw-server/main.go) and the SQL
-- statements that the handlers send: a statement that breaks a primary key, a foreign key or a
-- CHECK constraint is refused, `none`, and changes nothing.
pub mod Single
pub mod Table
pub mod Keys
pub mod Outlets
use pingclaw_server.Prelude.{
  ℕ, Bool, true, false, not, ◌&&◌, ◌||◌, Option, none, some, List, [], ◌∷◌, map, length, any, Text,
  codes, if◌then◌else◌, ◌==◌,
}
use Table.{select, find_by}

pub record User : Type 0 where
  pub user_id : Text
  pub created_at : ℕ
  pub updated_at : ℕ

pub record Identity : Type 0 where
  pub provider : Text
  pub provider_sub : Text
  pub user_id : Text
  pub created_at : ℕ

pub record Token : Type 0 where
  pub token_hash : Text
  pub user_id : Text
  pub kind : Text
  pub label : Option Text
  pub created_at : ℕ
  pub last_used_at : Option ℕ

pub record Webhook : Type 0 where
  pub user_id : Text
  pub url : Text
  pub secret : Text
  pub created_at : ℕ
  pub updated_at : ℕ

pub record Destination : Type 0 where
  pub destination_id : Text
  pub user_id : Text
  pub gateway_url : Text
  pub hook_token : Text
  pub hook_path : Text
  pub action : Text
  pub session_key : Text
  pub created_at : ℕ
  pub updated_at : ℕ

pub record Db : Type 0 where
  pub users : List User
  pub identities : List Identity
  pub tokens : List Token
  pub webhooks : List Webhook
  pub destinations : List Destination

abbrev pub empty : Db
empty = record { users = []; identities = []; tokens = []; webhooks = []; destinations = [] }

-- The primary keys.
abbrev pub user_key : User → Text
user_key u = u.user_id

abbrev pub token_key : Token → Text
token_key t = t.token_hash

abbrev pub webhook_key : Webhook → Text
webhook_key r = r.user_id

abbrev pub destination_key : Destination → Text
destination_key r = r.user_id

abbrev pub user_with : Text → Db → Option User
user_with id db = find_by user_key id db.users

abbrev pub token_with : Text → Db → Option Token
token_with hash db = find_by token_key hash db.tokens

abbrev pub webhook_of : Text → Db → Option Webhook
webhook_of id db = find_by webhook_key id db.webhooks

abbrev pub destination_of : Text → Db → Option Destination
destination_of id db = find_by destination_key id db.destinations

-- WHERE provider = $1 AND provider_sub = $2
abbrev pub identity_in : Text → Text → List Identity → Option Identity
identity_in p s [] = none
identity_in p s (r ∷ rs) =
    if r.provider == p && r.provider_sub == s then some r else identity_in p s rs

abbrev pub is_some {ℓ} : {A : Type ℓ} → Option A → Bool
is_some none = false
is_some (some a) = true

-- CHECK(kind IN ('web_session','api_key','pairing_token'))
abbrev pub is_kind : Text → Bool
is_kind k = k == codes "web_session" || k == codes "api_key" || k == codes "pairing_token"

-- WHERE user_id = $1 AND kind = $2
abbrev pub is_token_of : Text → Text → Token → Bool
is_token_of id kind t = t.user_id == id && t.kind == kind

abbrev pub tokens_of : Text → Text → Db → List Token
tokens_of id kind db = select (is_token_of id kind) db.tokens

unfoldable pub insert_user : ℕ → Text → Db → Option Db
insert_user now id db =
    if is_some (user_with id db)
    then none
    else some (record db {
      users = record { user_id = id; created_at = now; updated_at = now } ∷ db.users;
    })

unfoldable pub insert_identity : ℕ → Text → Text → Text → Db → Option Db
insert_identity now p s id db =
    if is_some (identity_in p s db.identities) || not (is_some (user_with id db))
    then none
    else some (record db {
      identities =
          record { provider = p; provider_sub = s; user_id = id; created_at = now } ∷ db.identities;
    })

unfoldable pub insert_token : ℕ → Text → Text → Text → Text → Db → Option Db
insert_token now hash id kind label db =
    if is_some (token_with hash db) || not (is_some (user_with id db)) || not (is_kind kind)
    then none
    else some (record db {
      tokens =
          record {
            token_hash = hash;
            user_id = id;
            kind = kind;
            label = some label;
            created_at = now;
            last_used_at = none;
          }
          ∷ db.tokens;
    })

unfoldable pub delete_tokens : Text → Text → Db → Option Db
delete_tokens id kind db =
    some (record db { tokens = select (λ t. not (is_token_of id kind t)) db.tokens })

abbrev pub stamp : ℕ → Text → User → User
stamp now id u = if u.user_id == id then record u { updated_at = now } else u

-- UPDATE users SET updated_at = … WHERE user_id = …
unfoldable pub touch_user : ℕ → Text → Db → Option Db
touch_user now id db = some (record db { users = map (stamp now id) db.users })

abbrev pub mark_used : ℕ → Text → Token → Token
mark_used now hash t = if t.token_hash == hash then record t { last_used_at = some now } else t

-- UPDATE user_tokens SET last_used_at = now() WHERE token_hash = $1
unfoldable pub touch_token : ℕ → Text → Db → Option Db
touch_token now hash db = some (record db { tokens = map (mark_used now hash) db.tokens })

-- DELETE FROM users WHERE user_id = $1, with the cascades of the foreign keys.
unfoldable pub delete_user : Text → Db → Option Db
delete_user id db = some (record {
  users = select (λ r. not (r.user_id == id)) db.users;
  identities = select (λ r. not (r.user_id == id)) db.identities;
  tokens = select (λ r. not (r.user_id == id)) db.tokens;
  webhooks = select (λ r. not (r.user_id == id)) db.webhooks;
  destinations = select (λ r. not (r.user_id == id)) db.destinations;
})

abbrev pub retarget : ℕ → Text → Text → Text → Webhook → Webhook
retarget now id url secret r =
    if r.user_id == id then record r { url = url; secret = secret; updated_at = now } else r

-- INSERT INTO user_webhooks … ON CONFLICT (user_id) DO UPDATE SET …
abbrev pub put_webhook : ℕ → Text → Text → Text → Option Webhook → List Webhook → List Webhook
put_webhook now id url secret none rows =
    record { user_id = id; url = url; secret = secret; created_at = now; updated_at = now } ∷ rows
put_webhook now id url secret (some old) rows = map (retarget now id url secret) rows

unfoldable pub upsert_webhook : ℕ → Text → Text → Text → Db → Option Db
upsert_webhook now id url secret db =
    if is_some (user_with id db)
    then some
        (record db { webhooks = put_webhook now id url secret (webhook_of id db) db.webhooks })
    else none

unfoldable pub delete_webhook : Text → Db → Option Db
delete_webhook id db =
    some (record db { webhooks = select (λ r. not (r.user_id == id)) db.webhooks })

abbrev pub redirect_dest : ℕ → Destination → Destination → Destination
redirect_dest now new r =
    if r.user_id == new.user_id
    then record new { created_at = r.created_at; updated_at = now }
    else r

abbrev pub put_destination :
    ℕ → Destination → Option Destination → List Destination → List Destination
put_destination now new none rows = record new { created_at = now; updated_at = now } ∷ rows
put_destination now new (some old) rows = map (redirect_dest now new) rows

-- INSERT INTO user_openclaw_destinations … ON CONFLICT (user_id) DO UPDATE SET …, with
-- CHECK(action IN ('wake','agent')).
unfoldable pub upsert_destination : ℕ → Destination → Db → Option Db
upsert_destination now new db =
    if is_some (user_with new.user_id db)
      && (new.action == codes "wake" || new.action == codes "agent")
    then some (record db {
      destinations = put_destination now new (destination_of new.user_id db) db.destinations;
    })
    else none

unfoldable pub delete_destination : Text → Db → Option Db
delete_destination id db =
    some (record db { destinations = select (λ r. not (r.user_id == id)) db.destinations })
