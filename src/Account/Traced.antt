-- ===== src/Account/Traced.antt =====
-- The statements and the store calls of the handlers on accounts in internal/pingclaw/handlers.go.
use pingclaw_server.Prelude.{
  ℕ, Option, none, some, List, [], ◌∷◌, Text, ◌≡◌, Bool-cases, inl, inr, arith,
}
use pingclaw_server.Kv.{Reply, found, key_not_found, failed}
use pingclaw_server.Auth.Traced.{IsTraced, traced_rules}
use pingclaw_server.RateLimit.{Verdict}
use pingclaw_server.RateLimit.Traced.{allow-IsTraced}
use pingclaw_server.Token.{Env}
use pingclaw_server.Auth.{Session}
use pingclaw_server.Auth.Traced.Tokens.{rotate_token-IsTraced}
use pingclaw_server.Auth.Logged.{forget-IsLogged}
use pingclaw_server.Db.Single.{OneEach, delete_user-OneEach}
use pingclaw_server.Db.{delete_user}
use pingclaw_server.Auth.Rotation.{forget-db}
use pingclaw_server.Auth.{forget}
use pingclaw_server.World.Log.{IsLogged, log_rules}
use pingclaw_server.World.{World, turn, db_query, kv_del, db_exec}
use pingclaw_server.Auth.{or_empty}
use pingclaw_server.Auth.Forgotten.{forget-clock}
use pingclaw_server.Account.{hashes_of_user}
use pingclaw_server.Account.Deletion.{gone-IsHealthy, gone-IsCoherent}
use pingclaw_server.Account.{
  Config, web_code, get_me, rotate_pairing_token, rotate_api_key, delete_account, web_login,
  login_with, login_checked, redeem, issue_session, normal_code,
}

module _ (Who : Text → Type 0) where
  module _ (s : Session) (own : Who s.user_id) where
    pub web_code-IsTraced : (bytes : List ℕ) → IsTraced Who (web_code bytes s)
    unfolding web_code
    web_code-IsTraced bytes = search traced_rules depth 6

    pub get_me-IsTraced : IsTraced Who (get_me s)
    unfolding get_me
    get_me-IsTraced = search traced_rules depth 8

    pub rotate_pairing_token-IsTraced :
        (env : Env) (bytes : List ℕ) → IsTraced Who (rotate_pairing_token env bytes s)
    unfolding rotate_pairing_token
    rotate_pairing_token-IsTraced env bytes = search (traced_rules, rotate_token-IsTraced) depth 6

    pub rotate_api_key-IsTraced :
        (env : Env) (bytes : List ℕ) → IsTraced Who (rotate_api_key env bytes s)
    unfolding rotate_api_key
    rotate_api_key-IsTraced env bytes = search (traced_rules, rotate_token-IsTraced) depth 6

    delete_account-IsLogged : IsLogged Who (delete_account s)
    unfolding delete_account
    delete_account-IsLogged = search (log_rules, forget-IsLogged) depth 16

    delete_account-clock : (w : World) → (delete_account s w).1.clock ≡ w.clock
    unfolding delete_account db_query kv_del db_exec
    delete_account-clock w =
        ground (arith, forget-clock (or_empty (db_query (hashes_of_user s.user_id) w).0) (turn w))

    delete_account-OneEach :
        (w : World) → OneEach w.db.tokens → OneEach (delete_account s w).1.db.tokens
    unfolding delete_account db_query kv_del db_exec delete_user
    delete_account-OneEach w o =
        let found = or_empty (db_query (hashes_of_user s.user_id) w).0 in
        let before = (forget found (turn w)).1 in
        let same : before.db ≡ w.db = forget-db found (turn w) in
        elim (Bool-cases (before.works 3)) [
          | inr down ↦ rw (down, same) o
          | inl up ↦ rw (up, same) (delete_user-OneEach s.user_id w.db o)
        ]

    pub delete_account-IsTraced : IsTraced Who (delete_account s)
    delete_account-IsTraced = record {
      logged = delete_account-IsLogged;
      faithful = record {
        one_each = delete_account-OneEach;
        same_clock = delete_account-clock;
        healthy = λ w h. gone-IsHealthy s w h;
        coherent = λ w h c. gone-IsCoherent s w h c;
      };
    }

  module _ (everyone : (id : Text) → Who id) (env : Env) (bytes : List ℕ) where
    redeem-IsTraced : (r : Reply Text) → IsTraced Who (redeem env bytes r)
    unfolding redeem issue_session
    redeem-IsTraced (found []) = search traced_rules
    redeem-IsTraced (found (c ∷ user)) =
        search (traced_rules, rotate_token-IsTraced, everyone) depth 6
    redeem-IsTraced key_not_found = search traced_rules
    redeem-IsTraced failed = search traced_rules

    login_checked-IsTraced :
        (code : Text) (v : Verdict) → IsTraced Who (login_checked env bytes code v)
    unfolding login_checked
    login_checked-IsTraced code v = search (traced_rules, redeem-IsTraced) depth 8

    login_with-IsTraced :
        (cfg : Config) (ip code : Text) → IsTraced Who (login_with env cfg bytes ip code)
    unfolding login_with
    login_with-IsTraced cfg ip [] = search traced_rules
    login_with-IsTraced cfg ip (c ∷ code) =
        search (traced_rules, allow-IsTraced, login_checked-IsTraced) depth 6

    pub web_login-IsTraced :
        (cfg : Config) (ip : Text) (typed : Option Text)
        → IsTraced Who (web_login env cfg bytes ip typed)
    unfolding web_login
    web_login-IsTraced cfg ip none = search traced_rules
    web_login-IsTraced cfg ip (some typed) = login_with-IsTraced cfg ip (normal_code env typed)
