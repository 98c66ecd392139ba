-- ===== src/SignIn/Traced.antt =====
-- The statements and the store calls of SocialAuth (internal/pingclaw/handlers.go).
use pingclaw_server.Prelude.{ℕ, Option, none, some, List, Text}
use pingclaw_server.Db.{Identity}
use pingclaw_server.Auth.Traced.{IsTraced, traced_rules}
use pingclaw_server.RateLimit.{Verdict}
use pingclaw_server.RateLimit.Traced.{allow-IsTraced}
use pingclaw_server.Token.{Env}
use pingclaw_server.Auth.Traced.Tokens.{rotate_token-IsTraced}
use pingclaw_server.SocialAuth.{Verifier, Verified, subject, invalid, panicked}
use pingclaw_server.Account.{Config}
use pingclaw_server.SignIn.{
  SocialRequest, create_user, known_or_new, find_or_create_social_user, issue_token, admit,
  attempt_sign_in, sign_in, social_auth,
}

module _ (Who : Text → Type 0) (everyone : (id : Text) → Who id) where
  create_user-IsTraced : (uuid provider sub : Text) → IsTraced Who (create_user uuid provider sub)
  unfolding create_user
  create_user-IsTraced uuid provider sub = search (traced_rules, everyone) depth 12

  known_or_new-IsTraced :
      (uuid provider sub : Text) (row : Option (Option Identity))
      → IsTraced Who (known_or_new uuid provider sub row)
  unfolding known_or_new
  known_or_new-IsTraced uuid provider sub none = search traced_rules
  known_or_new-IsTraced uuid provider sub (some none) = create_user-IsTraced uuid provider sub
  known_or_new-IsTraced uuid provider sub (some (some id)) = search (traced_rules, everyone) depth 6

  find_or_create-IsTraced :
      (uuid provider sub : Text) → IsTraced Who (find_or_create_social_user uuid provider sub)
  unfolding find_or_create_social_user
  find_or_create-IsTraced uuid provider sub = search (traced_rules, known_or_new-IsTraced) depth 6

  issue_token-IsTraced :
      (env : Env) (bytes : List ℕ) (client : Text) (user : Option Text)
      → IsTraced Who (issue_token env bytes client user)
  unfolding issue_token
  issue_token-IsTraced env bytes client none = search traced_rules
  issue_token-IsTraced env bytes client (some id) =
      search (traced_rules, rotate_token-IsTraced, everyone) depth 8

  admit-IsTraced :
      (env : Env) (bytes : List ℕ) (uuid : Text) (req : SocialRequest) (v : Verified)
      → IsTraced Who (admit env bytes uuid req v)
  unfolding admit
  admit-IsTraced env bytes uuid req panicked = search traced_rules
  admit-IsTraced env bytes uuid req invalid = search traced_rules
  admit-IsTraced env bytes uuid req (subject sub) =
      search (traced_rules, find_or_create-IsTraced, issue_token-IsTraced) depth 6

  attempt_sign_in-IsTraced :
      (env : Env) (bytes : List ℕ) (uuid : Text) (v : Verifier) (req : SocialRequest)
      (verdict : Verdict)
      → IsTraced Who (attempt_sign_in env bytes uuid v req verdict)
  unfolding attempt_sign_in
  attempt_sign_in-IsTraced env bytes uuid v req verdict =
      search (traced_rules, admit-IsTraced) depth 6

  sign_in-IsTraced :
      (env : Env) (cfg : Config) (bytes : List ℕ) (uuid ip : Text) (v : Verifier)
      (req : SocialRequest)
      → IsTraced Who (sign_in env cfg bytes uuid ip v req)
  unfolding sign_in
  sign_in-IsTraced env cfg bytes uuid ip v req =
      search (traced_rules, allow-IsTraced, attempt_sign_in-IsTraced) depth 8

  pub social_auth-IsTraced :
      (env : Env) (cfg : Config) (bytes : List ℕ) (uuid ip : Text) (v : Option Verifier)
      (req : Option SocialRequest)
      → IsTraced Who (social_auth env cfg bytes uuid ip v req)
  unfolding social_auth
  social_auth-IsTraced env cfg bytes uuid ip none req = search traced_rules
  social_auth-IsTraced env cfg bytes uuid ip (some v) none = search traced_rules
  social_auth-IsTraced env cfg bytes uuid ip (some v) (some req) =
      sign_in-IsTraced env cfg bytes uuid ip v req
