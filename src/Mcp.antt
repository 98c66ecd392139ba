-- ===== src/Mcp.antt =====
-- internal/pingclaw/mcp.go: mcpAuthMiddleware and the tool get_my_location. The protocol is a
-- library's; `age_of` gives time.Since of a timestamp that time.Parse accepts.
pub mod Traced
use pingclaw_server.Prelude.{
  ℕ, ◌*◌, ◌/◌, ◌^◌, ◌≡◌, refl, Option, none, some, inl, inr, [], ◌∷◌, ◌++◌, arith, Text, codes, ltb,
  if◌then◌else◌, ◌==◌, ==_iff, not, Bool-cases,
}
use pingclaw_server.Prelude.Int.{ℤ, pos, negsuc}
use pingclaw_server.Text.{has_prefix, trim_prefix}
use pingclaw_server.Text.Number.{format_uint}
use pingclaw_server.Kv.{Reply, found, key_not_found, failed}
use pingclaw_server.Db.{Token, token_with, touch_token}
use pingclaw_server.World.{World, M, pure, ◌>>=◌, ◌>>◌, db_query, db_exec}
use pingclaw_server.Http.{Float, Json, Response, str, float, obj, end, field, http_error}
use pingclaw_server.Token.{Env, hash_token}
use pingclaw_server.Auth.{bearer}
use pingclaw_server.Integration.{record_integration_activity}
use pingclaw_server.Location.{CachedLocation, LocationJson, read_location}

pub data McpChecked : Type 0 where
  mcp_rejected : Response → McpChecked
  mcp_admitted : Text → McpChecked

mcp_admit : Text → Option (Option Token) → M McpChecked
mcp_admit hash none = pure (mcp_rejected (http_error "internal error" 500))
mcp_admit hash (some none) = pure (mcp_rejected (http_error "invalid token" 401))
mcp_admit hash (some (some t)) =
    if not (t.kind == codes "api_key")
    then pure (mcp_rejected (http_error "MCP requires an API key" 403))
    else (do db_exec (λ now. touch_token now hash); pure (mcp_admitted t.user_id))

mcp_lookup : Text → M McpChecked
unfolding mcp_admit
mcp_lookup hash = do row ← db_query (token_with hash); mcp_admit hash row

unfoldable pub mcp_auth_middleware : Env → Text → M McpChecked
unfolding mcp_lookup
mcp_auth_middleware env authorization =
    if has_prefix authorization bearer
    then mcp_lookup (hash_token env (trim_prefix authorization bearer))
    else pure (mcp_rejected (http_error "missing token" 401))

abbrev second : ℕ
second = 10 ^ 9

abbrev ago : ℕ → Text → Text
ago n unit = format_uint n ++ (unit ++ codes " ago")

-- A negative age is that of a timestamp in the future.
abbrev pub age_text : Option ℤ → Text
age_text none = codes "unknown"
age_text (some (negsuc n)) = codes "just now"
age_text (some (pos n)) =
    if ltb n (10 * second)
    then codes "just now"
    else if ltb n (60 * second)
    then ago (n / second) (codes "s")
    else if ltb n (3600 * second)
    then ago (n / (60 * second)) (codes "m")
    else if ltb n (24 * 3600 * second)
    then ago (n / (3600 * second)) (codes "h")
    else ago (n / (24 * 3600 * second)) (codes "d")

pub data ToolResult : Type 0 where
  tool_error : Text → ToolResult
  tool_text : Text → ToolResult
  tool_json : Json → ToolResult

-- The accuracy of a location that has none is 0.0, whose bits are 0.
abbrev accuracy_or_zero : Option Float → Float
accuracy_or_zero none = 0
accuracy_or_zero (some f) = f

abbrev pub tool_location : (Text → Option ℤ) → Reply CachedLocation → ToolResult
tool_location age_of failed = tool_error (codes "failed to fetch location")
tool_location age_of key_not_found = tool_text (
    codes
      "{\"status\":\"no_location\",\"message\":\"No location data yet — open PingClaw on your phone to start sharing your location.\"}")
tool_location age_of (found loc) = tool_json (
    obj (
      field "status" (str (codes "ok")) (
        field "lat" (float loc.lat) (
          field "lng" (float loc.lng) (
            field "accuracy_metres" (float (accuracy_or_zero loc.accuracy_metres)) (
              field "last_updated" (str loc.timestamp)
                (field "last_updated_ago" (str (age_text (age_of loc.timestamp))) end)))))))

unfoldable pub mcp_get_my_location : LocationJson → (Text → Option ℤ) → Text → M ToolResult
mcp_get_my_location lj age_of user_id = do
  loc ← read_location lj user_id
  pure (tool_location age_of loc)

-- The callback of the tool, for the user that the middleware admitted.
unfoldable pub get_my_location : Env → LocationJson → (Text → Option ℤ) → Text → M ToolResult
get_my_location env lj age_of [] = pure (tool_error (codes "not authenticated"))
get_my_location env lj age_of (c ∷ user) = do
  record_integration_activity env (c ∷ user) "mcp"
  mcp_get_my_location lj age_of (c ∷ user)

-- An API key that the database holds under the hash of the presented token.
abbrev pub HoldsApiKey : Env → Text → World → Text → Type 0
HoldsApiKey env authorization w user =
    (t : Token) × (token_with (hash_token env (trim_prefix authorization bearer)) w.db ≡ some t)
    × (t.kind ≡ codes "api_key")
    × (t.user_id ≡ user)

admit_sound :
    (hash user : Text) (row : Option (Option Token)) (w : World)
    → (mcp_admit hash row w).0 ≡ mcp_admitted user
    → (t : Token) × (row ≡ some (some t)) × (t.kind ≡ codes "api_key") × (t.user_id ≡ user)
unfolding mcp_admit
admit_sound hash user none w e = absurd cc
admit_sound hash user (some none) w e = absurd cc
admit_sound hash user (some (some t)) w e = elim (Bool-cases (t.kind == codes "api_key")) [
  | inl key ↦ let e' = rw key at e in (t, refl, (==_iff t.kind (codes "api_key")).0 key, cc)
  | inr other ↦ absurd (unfold db_exec in (ground arith))
]

-- Under any schedule of failures, a request that the middleware lets through to the tools bears the
-- token of an API key that the database holds at that moment, and acts for the user of that key: no
-- token of another kind is enough, and no cache is asked.
pub mcp_auth_middleware_sound :
    (env : Env) (authorization user : Text) (w : World)
    → (mcp_auth_middleware env authorization w).0 ≡ mcp_admitted user
    → HoldsApiKey env authorization w user
unfolding mcp_auth_middleware db_query
mcp_auth_middleware_sound env authorization user w e =
    let hash = hash_token env (trim_prefix authorization bearer) in
    elim (Bool-cases (has_prefix authorization bearer)) [
      | inl p ↦
          let (t, row, kind, owner) =
            admit_sound hash user (db_query (token_with hash) w).0 (db_query (token_with hash) w).1
              (rw p at e) in
          (t, ground arith, kind, owner)
      | inr p ↦ absurd (let e' = rw p at e in cc)
    ]
