-- ===== src/Integration/Traced.antt =====
-- The times of last activity (internal/pingclaw/handlers.go) and the calls of the store that they make.
use pingclaw_server.Prelude.{List, [], ◌∷◌, String, Text}
use pingclaw_server.Auth.Traced.{IsTraced, traced_rules}
use pingclaw_server.Token.{Env}
use pingclaw_server.Auth.{Session}
use pingclaw_server.Integration.{
  record_integration_activity, activity_of, get_integration_activity, get_integration_status,
}

module _ (Who : Text → Type 0) where
  pub record_integration_activity-IsTraced :
      (env : Env) (user_id : Text) (kind : String)
      → IsTraced Who (record_integration_activity env user_id kind)
  unfolding record_integration_activity
  record_integration_activity-IsTraced env user_id kind = search traced_rules depth 6

  activity_of-IsTraced : (user_id : Text) (ks : List String) → IsTraced Who (activity_of user_id ks)
  unfolding activity_of
  activity_of-IsTraced user_id [] = search traced_rules
  activity_of-IsTraced user_id (kind ∷ ks) =
      let rest = activity_of-IsTraced user_id ks in search traced_rules depth 8

  pub get_integration_status-IsTraced : (s : Session) → IsTraced Who (get_integration_status s)
  unfolding get_integration_status get_integration_activity
  get_integration_status-IsTraced s = search (traced_rules, activity_of-IsTraced) depth 6
