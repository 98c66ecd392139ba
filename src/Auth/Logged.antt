-- ===== src/Auth/Logged.antt =====
-- The statements of requireAuthKinds and rotateToken (internal/pingclaw/handlers.go).
use pingclaw_server.Prelude.{ℕ, Bool, true, false, Option, none, some, List, [], ◌∷◌, Text}
use pingclaw_server.Db.{Token}
use pingclaw_server.World.Log.{IsLogged, log_rules}
use pingclaw_server.Token.{Env}
use pingclaw_server.Auth.{
  Session, load_session, identify, check_hash, check_auth, forget, replace_tokens, finish_rotation,
  rotate_token,
}

module _ (Who : Text → Type 0) where
  load_session-IsLogged :
      (hash : Text) (row : Option (Option Token)) → IsLogged Who (load_session hash row)
  unfolding load_session
  load_session-IsLogged hash none = search log_rules
  load_session-IsLogged hash (some none) = search log_rules
  load_session-IsLogged hash (some (some t)) = search log_rules depth 9

  pub identify-IsLogged : (hash : Text) (s : Option Session) → IsLogged Who (identify hash s)
  unfolding identify
  identify-IsLogged hash none = search (log_rules, load_session-IsLogged) depth 9
  identify-IsLogged hash (some s) = search log_rules

  pub check_auth-IsLogged :
      (env : Env) (kinds : List Text) (authorization : Text)
      → IsLogged Who (check_auth env kinds authorization)
  unfolding check_auth check_hash
  check_auth-IsLogged env kinds authorization = search (log_rules, identify-IsLogged) depth 12

  replace_tokens-IsLogged :
      (user_id kind hash : Text) → Who user_id → IsLogged Who (replace_tokens user_id kind hash)
  unfolding replace_tokens
  replace_tokens-IsLogged user_id kind hash p = search log_rules depth 12

  pub forget-IsLogged : (hashes : List Text) → IsLogged Who (forget hashes)
  unfolding forget
  forget-IsLogged [] = search log_rules
  forget-IsLogged (hash ∷ hashes) = let rest = forget-IsLogged hashes in search log_rules depth 6

  finish_rotation-IsLogged :
      (old : List Text) (tok : Text) (done : Bool) → IsLogged Who (finish_rotation old tok done)
  unfolding finish_rotation
  finish_rotation-IsLogged old tok false = search log_rules
  finish_rotation-IsLogged old tok true = search (log_rules, forget-IsLogged) depth 6

  pub rotate_token-IsLogged :
      (env : Env) (bytes : List ℕ) (user_id kind prefix : Text)
      → Who user_id
      → IsLogged Who (rotate_token env bytes user_id kind prefix)
  unfolding rotate_token
  rotate_token-IsLogged env bytes user_id kind prefix p =
      search (log_rules, replace_tokens-IsLogged, finish_rotation-IsLogged) depth 9
