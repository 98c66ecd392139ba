-- ===== src/Requests/Isolation.antt =====
-- What requests behind requireAuthKinds (internal/pingclaw/handlers.go) do to the rows of a user as
-- whom they are not admitted.
pub mod Rows
pub mod Statements
use pingclaw_server.Prelude.{◌≡◌, ◌≢◌, refl, true, false, Text, ◌==◌, ==_iff, Bool-cases, inl, inr}
use pingclaw_server.Db.{Db}
use pingclaw_server.World.{World}
use pingclaw_server.World.Log.{IsLogged, Log, unchanged, Log-trans}
use pingclaw_server.Auth.{
  Session, Checked, rejected, admitted, check_auth, serve_checked, require_auth_kinds,
}
use pingclaw_server.Auth.Logged.{check_auth-IsLogged}
use pingclaw_server.Routes.{kinds_of}
use pingclaw_server.Requests.{Server, Call, endpoint_of, handle, Request, behind, serve}
use pingclaw_server.Requests.Effects.{handle-IsTraced}
use Rows.{SameRows}
use Statements.{IsNot, Log-SameRows}

IsNot-ne : (v id : Text) → id ≢ v → IsNot v id
IsNot-ne v id ne = elim (Bool-cases (id == v)) [
  | inl same ↦ absurd (ne ((==_iff id v).0 same))
  | inr other ↦ other
]

checked_log :
    (srv : Server) (c : Call) (v : Text) (checked : Checked) (w : World)
    → ((s : Session) → checked ≡ admitted s → s.user_id ≢ v)
    → Log (IsNot v) w.db (serve_checked (handle srv c) checked w).1.db
unfolding serve_checked
checked_log srv c v (rejected r) w h = unchanged
checked_log srv c v (admitted s) w h =
    (handle-IsTraced (IsNot v) srv c s (IsNot-ne v s.user_id (h s refl))).logged.at w

-- A request to any endpoint behind the middleware that is not admitted as a certain user leaves that
-- user's rows alone in every table, whichever calls of the store and the database fail; only a time of
-- last use of a token may be new.
pub serve_isolated :
    (srv : Server) (authorization : Text) (c : Call) (v : Text) (w : World)
    → ((s : Session)
        → (check_auth srv.env (kinds_of (endpoint_of c)) authorization w).0 ≡ admitted s
        → s.user_id ≢ v)
    → SameRows v w.db (serve srv (behind authorization c) w).1.db
unfolding serve require_auth_kinds
serve_isolated srv authorization c v w h =
    let kinds = kinds_of (endpoint_of c) in
    let first = (check_auth-IsLogged (IsNot v) srv.env kinds authorization).at w in
    let rest =
      checked_log srv c v (check_auth srv.env kinds authorization w).0
        (check_auth srv.env kinds authorization w).1 h in
    Log-SameRows v (Log-trans (IsNot v) first rest)
