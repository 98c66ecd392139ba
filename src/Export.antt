-- ===== src/Export.antt =====
-- The data export: GetMyData of internal/pingclaw/handlers.go.
pub mod Order
pub mod Rows
pub mod Traced
use pingclaw_server.Prelude.{
  ℕ, Bool, true, false, Option, none, some, List, [], ◌∷◌, Text, codes, leb, if◌then◌else◌, ◌==◌,
}
use pingclaw_server.Kv.{Reply, found, key_not_found, failed}
use pingclaw_server.Db.{
  Db, User, Identity, Token, Webhook, Destination, user_with, webhook_of, destination_of,
}
use pingclaw_server.Db.Table.{select}
use pingclaw_server.World.{World, M, pure, ◌>>=◌, db_query}
use pingclaw_server.Http.{
  Json, Fields, Response, null, str, float, obj, arr, items, end, field, write_json, write_error,
}
use pingclaw_server.Auth.{Session, or_empty}
use pingclaw_server.Location.{CachedLocation, LocationJson, read_location, or_null}

-- ORDER BY; SQL leaves open how rows of one time are ordered, here they keep the table's order.
module _ {ℓ} {A : Type ℓ} where
  abbrev pub insert_by : (A → ℕ) → A → List A → List A
  insert_by time x [] = x ∷ []
  insert_by time x (y ∷ ys) = if leb (time x) (time y) then x ∷ y ∷ ys else y ∷ insert_by time x ys

  abbrev pub order_by : (A → ℕ) → List A → List A
  order_by time [] = []
  order_by time (x ∷ xs) = insert_by time x (order_by time xs)

-- SELECT … FROM user_identities WHERE user_id = $1 ORDER BY created_at
abbrev pub identities_of : Text → Db → List Identity
identities_of user_id db =
    order_by (λ (r : Identity). r.created_at) (select (λ r. r.user_id == user_id) db.identities)

-- SELECT … FROM user_tokens WHERE user_id = $1 ORDER BY created_at
abbrev pub tokens_by_age : Text → Db → List Token
tokens_by_age user_id db =
    order_by (λ (t : Token). t.created_at) (select (λ t. t.user_id == user_id) db.tokens)

-- A time as the database's driver writes it into a string.
module _ (scanned : ℕ → Text) where
  abbrev pub identity_row : Identity → Json
  identity_row r = obj (
      field "provider" (str r.provider) (
        field "provider_sub" (str r.provider_sub)
          (field "created_at" (str (scanned r.created_at)) end)))

  abbrev text_or_null : Option Text → Json
  text_or_null none = null
  text_or_null (some t) = str t

  abbrev time_or_null : Option ℕ → Json
  time_or_null none = null
  time_or_null (some t) = str (scanned t)

  abbrev pub token_row : Token → Json
  token_row t = obj (
      field "token_hash" (str t.token_hash) (
        field "kind" (str t.kind) (
          field "label" (text_or_null t.label) (
            field "created_at" (str (scanned t.created_at))
              (field "last_used_at" (time_or_null t.last_used_at) end)))))

  -- No location in the store, or one that cannot be read, is null.
  abbrev pub location_row : Reply CachedLocation → Json
  location_row key_not_found = null
  location_row failed = null
  location_row (found loc) = obj (
      field "lat" (float loc.lat) (
        field "lng" (float loc.lng) (
          field "accuracy_metres" (or_null loc.accuracy_metres) (
            field "timestamp" (str loc.timestamp)
              (field "received_at" (str loc.received_at) end)))))

  -- An error of the query counts as no row.
  abbrev pub webhook_row : Option (Option Webhook) → Json
  webhook_row none = null
  webhook_row (some none) = null
  webhook_row (some (some r)) = obj (
      field "url" (str r.url) (
        field "secret" (str r.secret) (
          field "created_at" (str (scanned r.created_at))
            (field "updated_at" (str (scanned r.updated_at)) end))))

  -- The columns that the query selects: neither hook_token nor session_key.
  abbrev pub gateway_json : Destination → Json
  gateway_json r = obj (
      field "destination_id" (str r.destination_id) (
        field "gateway_url" (str r.gateway_url) (
          field "hook_path" (str r.hook_path) (
            field "action" (str r.action) (
              field "created_at" (str (scanned r.created_at))
                (field "updated_at" (str (scanned r.updated_at)) end))))))

  abbrev pub gateway_row : Option (Option Destination) → Json
  gateway_row none = null
  gateway_row (some none) = null
  gateway_row (some (some r)) = gateway_json r

  abbrev pub exported :
      Text
      → User
      → List Identity
      → List Token
      → Reply CachedLocation
      → Option (Option Webhook)
      → Option (Option Destination)
      → Response
  exported user_id user identities tokens loc webhook gateway = write_json 200 (
      obj (
        field "user_id" (str user_id) (
          field "created_at" (str (scanned user.created_at)) (
            field "updated_at" (str (scanned user.updated_at)) (
              field "identities" (arr (items identity_row identities)) (
                field "tokens" (arr (items token_row tokens)) (
                  field "location" (location_row loc) (
                    field "webhook" (webhook_row webhook)
                      (field "openclaw_gateway" (gateway_row gateway) end)))))))))

  export_user : LocationJson → Text → Option (Option User) → M Response
  export_user lj user_id none = pure (write_error 500 "internal error")
  export_user lj user_id (some none) = pure (write_error 500 "internal error")
  export_user lj user_id (some (some user)) = do
    identities ← db_query (identities_of user_id)
    tokens ← db_query (tokens_by_age user_id)
    loc ← read_location lj user_id
    webhook ← db_query (webhook_of user_id)
    gateway ← db_query (destination_of user_id)
    pure (exported user_id user (or_empty identities) (or_empty tokens) loc webhook gateway)

  unfoldable pub get_my_data : LocationJson → Session → M Response
  unfolding export_user
  get_my_data lj s = do user ← db_query (user_with s.user_id); export_user lj s.user_id user
