-- ===== src/Mcp/Traced.antt =====
-- The statements and the store calls of internal/pingclaw/mcp.go.
use pingclaw_server.Prelude.{Option, none, some, [], ◌∷◌, Text}
use pingclaw_server.Prelude.Int.{ℤ}
use pingclaw_server.Db.{Token}
use pingclaw_server.Auth.Traced.{IsTraced, traced_rules}
use pingclaw_server.Token.{Env}
use pingclaw_server.Integration.Traced.{record_integration_activity-IsTraced}
use pingclaw_server.Location.{LocationJson}
use pingclaw_server.Location.Traced.{read_location-IsTraced}
use pingclaw_server.Mcp.{
  mcp_admit, mcp_lookup, mcp_auth_middleware, mcp_get_my_location, get_my_location,
}

module _ (Who : Text → Type 0) where
  mcp_admit-IsTraced :
      (hash : Text) (row : Option (Option Token)) → IsTraced Who (mcp_admit hash row)
  unfolding mcp_admit
  mcp_admit-IsTraced hash none = search traced_rules
  mcp_admit-IsTraced hash (some none) = search traced_rules
  mcp_admit-IsTraced hash (some (some t)) = search traced_rules depth 10

  pub mcp_auth_middleware-IsTraced :
      (env : Env) (authorization : Text) → IsTraced Who (mcp_auth_middleware env authorization)
  unfolding mcp_auth_middleware mcp_lookup
  mcp_auth_middleware-IsTraced env authorization = search (traced_rules, mcp_admit-IsTraced) depth 8

  pub get_my_location-IsTraced :
      (env : Env) (lj : LocationJson) (age_of : Text → Option ℤ) (user_id : Text)
      → IsTraced Who (get_my_location env lj age_of user_id)
  unfolding get_my_location mcp_get_my_location
  get_my_location-IsTraced env lj age_of [] = search traced_rules
  get_my_location-IsTraced env lj age_of (c ∷ user) =
      search (traced_rules, record_integration_activity-IsTraced, read_location-IsTraced) depth 8
