-- ===== src/Export/Traced.antt =====
-- GetMyData (internal/pingclaw/handlers.go) and the calls of the store and the database that it makes.
use pingclaw_server.Prelude.{ℕ, Option, none, some, Text}
use pingclaw_server.Db.{User}
use pingclaw_server.Auth.Traced.{IsTraced, traced_rules}
use pingclaw_server.Auth.{Session}
use pingclaw_server.Location.{LocationJson}
use pingclaw_server.Location.Traced.{read_location-IsTraced}
use pingclaw_server.Export.{export_user, get_my_data}

module _ (Who : Text → Type 0) (scanned : ℕ → Text) where
  export_user-IsTraced :
      (lj : LocationJson) (user_id : Text) (row : Option (Option User))
      → IsTraced Who (export_user scanned lj user_id row)
  unfolding export_user
  export_user-IsTraced lj user_id none = search traced_rules
  export_user-IsTraced lj user_id (some none) = search traced_rules
  export_user-IsTraced lj user_id (some (some user)) =
      search (traced_rules, read_location-IsTraced) depth 14

  pub get_my_data-IsTraced :
      (lj : LocationJson) (s : Session) → IsTraced Who (get_my_data scanned lj s)
  unfolding get_my_data
  get_my_data-IsTraced lj s = search (traced_rules, export_user-IsTraced) depth 6
