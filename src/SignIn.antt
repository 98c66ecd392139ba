-- ===== src/SignIn.antt =====
-- SocialAuth and findOrCreateSocialUser of internal/pingclaw/handlers.go. `uuid` is what
-- uuid.New() gives, cut to 12 characters; a handler that panics has no response, `none`.
pub mod Users
pub mod Traced
use pingclaw_server.Prelude.{
  ℕ, Bool, true, false, not, ◌&&◌, ◌||◌, Option, none, some, List, [], ◌∷◌, ◌++◌, Text, codes,
  if◌then◌else◌, ◌==◌,
}
use pingclaw_server.Db.{Db, Identity, identity_in, insert_user, insert_identity, touch_user}
use pingclaw_server.World.{World, M, pure, ◌>>=◌, ◌>>◌, db_query, db_exec}
use pingclaw_server.RateLimit.{Limiter, Verdict, allow}
use pingclaw_server.Http.{Response, write_error, too_many, write_json, obj, field, end, str}
use pingclaw_server.Token.{Env}
use pingclaw_server.Auth.{rotate_token}
use pingclaw_server.SocialAuth.{
  Verifier, Verified, subject, invalid, panicked, verify, provider_apple, provider_google,
}
use pingclaw_server.Account.{Config, ip_key, session_issued, pairing_issued}

pub record SocialRequest : Type 0 where
  pub provider : Text
  pub id_token : Text
  pub client : Text

abbrev pub new_user_id : Text → Text
new_user_id uuid = codes "usr_" ++ uuid

create_user : Text → Text → Text → M (Option Text)
create_user uuid provider sub = do
  inserted ← db_exec (λ now. insert_user now (new_user_id uuid))
  if inserted then link_user else pure none
  where
    link_user : M (Option Text)
    link_user = do
      linked ← db_exec (λ now. insert_identity now provider sub (new_user_id uuid))
      pure (if linked then some (new_user_id uuid) else none)

known_or_new : Text → Text → Text → Option (Option Identity) → M (Option Text)
unfolding create_user
known_or_new uuid provider sub none = pure none
known_or_new uuid provider sub (some (some id)) = do
  db_exec (λ now. touch_user now id.user_id)
  pure (some id.user_id)
known_or_new uuid provider sub (some none) = create_user uuid provider sub

unfoldable pub find_or_create_social_user : Text → Text → Text → M (Option Text)
unfolding known_or_new
find_or_create_social_user uuid provider sub = do
  row ← db_query (λ db. identity_in provider sub db.identities)
  known_or_new uuid provider sub row

abbrev is_phone : Text → Bool
is_phone client = client == codes "ios" || client == codes "android"

abbrev answered : Response → M (Option Response)
answered r = pure (some r)

issue_token : Env → List ℕ → Text → Option Text → M (Option Response)
issue_token env bytes client none = answered (write_error 500 "internal error")
issue_token env bytes client (some user_id) =
    if is_phone client
    then (do
      tok ← rotate_token env bytes user_id (codes "pairing_token") (codes "pt_")
      answered (pairing_issued user_id tok))
    else (do
      tok ← rotate_token env bytes user_id (codes "web_session") (codes "ws_")
      answered (session_issued user_id tok))

admit : Env → List ℕ → Text → SocialRequest → Verified → M (Option Response)
unfolding issue_token
admit env bytes uuid req panicked = pure none
admit env bytes uuid req invalid = answered (write_error 401 "identity verification failed")
admit env bytes uuid req (subject sub) = do
  user ← find_or_create_social_user uuid req.provider sub
  issue_token env bytes req.client user

attempt_sign_in : Env → List ℕ → Text → Verifier → SocialRequest → Verdict → M (Option Response)
unfolding admit
attempt_sign_in env bytes uuid v req verdict =
    if verdict.allowed
    then admit env bytes uuid req (verify v req.provider req.id_token)
    else answered (too_many verdict.retry_after "too many sign-in attempts — try again later")

sign_in : Env → Config → List ℕ → Text → Text → Verifier → SocialRequest → M (Option Response)
unfolding attempt_sign_in
sign_in env cfg bytes uuid ip v req =
    if not (req.provider == provider_apple || req.provider == provider_google)
    then answered (write_error 400 "provider must be 'apple' or 'google'")
    else if req.id_token == []
    then answered (write_error 400 "id_token is required")
    else (do
      verdict ← allow cfg.limiter (ip_key ip) cfg.per_ip_per_hour
      attempt_sign_in env bytes uuid v req verdict)

unfoldable pub social_auth :
    Env
    → Config
    → List ℕ
    → Text
    → Text
    → Option Verifier
    → Option SocialRequest
    → M (Option Response)
unfolding sign_in
social_auth env cfg bytes uuid ip none req = answered (
    write_json 404 (
      obj (
        field "error"
          (str
            (codes "Social sign-in is not available in local mode. Use a pairing token instead."))
          end)))
social_auth env cfg bytes uuid ip (some v) none = answered (write_error 400 "invalid request body")
social_auth env cfg bytes uuid ip (some v) (some req) = sign_in env cfg bytes uuid ip v req
