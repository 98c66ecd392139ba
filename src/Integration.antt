-- ===== src/Integration.antt =====
-- The times of last activity of a user's integrations: recordIntegrationActivity,
-- getIntegrationActivity and GetIntegrationStatus of internal/pingclaw/handlers.go.
pub mod Traced
use pingclaw_server.Prelude.{◌*◌, Bool, List, [], ◌∷◌, ◌++◌, String, Text, codes}
use pingclaw_server.Prelude.Int.{ℤ}
use pingclaw_server.Kv.{Reply, found, key_not_found, failed}
use pingclaw_server.World.{M, pure, ◌>>=◌, now, kv_get, kv_set}
use pingclaw_server.Http.{Fields, Response, str, obj, end, field, write_json}
use pingclaw_server.Token.{Env}
use pingclaw_server.Auth.{Session, minutes}

abbrev pub integration_key : Text → Text → Text
integration_key user_id kind = codes "intg:" ++ (user_id ++ (b':' ∷ kind))

-- 30 days
abbrev pub integration_ttl : ℤ
integration_ttl = minutes (30 * 24 * 60)

unfoldable pub record_integration_activity : Env → Text → String → M Bool
record_integration_activity env user_id kind = do
  t ← now
  kv_set (integration_key user_id (codes kind)) (env.rfc3339 t) integration_ttl

abbrev pub kinds : List String
kinds = "mcp" ∷ "webhook" ∷ "openclaw" ∷ "chatgpt" ∷ "api" ∷ []

-- A kind is listed if its value could be read and is not empty.
abbrev listed : String → Reply Text → Fields → Fields
listed kind (found []) rest = rest
listed kind (found (c ∷ v)) rest = field kind (str (c ∷ v)) rest
listed kind key_not_found rest = rest
listed kind failed rest = rest

unfoldable pub activity_of : Text → List String → M Fields
activity_of user_id [] = pure end
activity_of user_id (kind ∷ ks) = do
  val ← kv_get (integration_key user_id (codes kind))
  rest ← activity_of user_id ks
  pure (listed kind val rest)

unfoldable pub get_integration_activity : Text → M Fields
unfolding activity_of
get_integration_activity user_id = activity_of user_id kinds

unfoldable pub get_integration_status : Session → M Response
get_integration_status s = do
  activity ← get_integration_activity s.user_id
  pure (write_json 200 (obj (field "activity" (obj activity) end)))
