-- ===== src/LocalMode.antt =====
-- The local mode of cmd/pingclaw-server/main.go: bootstrapLocalUser and rotateLocalToken. The
-- result is the token that is printed, `none` if there is none.
use pingclaw_server.Prelude.{
  ℕ, ◌≡◌, refl, not, map, Option, none, some, List, [], ◌∷◌, arith, Text, codes, length, ltb,
  if◌then◌else◌, ==_iff,
}
use pingclaw_server.Db.{
  Token, token_key, token_with, is_token_of, tokens_of, insert_user, insert_token, delete_tokens,
}
use pingclaw_server.Db.Table.{select}
use pingclaw_server.World.{World, M, pure, ◌>>=◌, db_query, db_exec}
use pingclaw_server.Token.{Env, hash_token, generate_token}

abbrev pub local_user : Text
local_user = codes "usr_local"

abbrev pairing : Text
pairing = codes "pairing_token"

insert_local_token : Env → Text → M (Option Text)
insert_local_token env token = do
  inserted ←
      db_exec
        (λ now. insert_token now (hash_token env token) local_user pairing (codes "bootstrap"))
  pure (if inserted then some token else none)

bootstrap_empty : Env → Text → M (Option Text)
unfolding insert_local_token
bootstrap_empty env token = do
  created ← db_exec (λ now. insert_user now local_user)
  if created then insert_local_token env token else pure none

-- A count that failed, or of a table with users, ends the bootstrap.
bootstrap_counted : Env → Text → Option ℕ → M (Option Text)
unfolding bootstrap_empty
bootstrap_counted env token none = pure none
bootstrap_counted env token (some n) = if ltb 0 n then pure none else bootstrap_empty env token

unfoldable pub bootstrap_local_user : Env → List ℕ → M (Option Text)
unfolding bootstrap_counted
bootstrap_local_user env bytes = do
  count ← db_query (λ db. length db.users)
  bootstrap_counted env (generate_token (codes "pt_") bytes) count

unfoldable pub rotate_local_token : Env → List ℕ → M (Option Text)
unfolding insert_local_token
rotate_local_token env bytes = do
  deleted ← db_exec (λ now. delete_tokens local_user pairing)
  if deleted then insert_local_token env (generate_token (codes "pt_") bytes) else pure none

abbrev pub kind_of : Option Token → Option (Text × Text)
kind_of none = none
kind_of (some t) = some (t.user_id, t.kind)

none_left :
    (id kind : Text) (ts : List Token)
    → select (is_token_of id kind) (select (λ t. not (is_token_of id kind t)) ts) ≡ []
none_left id kind [] = refl
none_left id kind (t ∷ ts) = ground (arith, none_left id kind ts)

-- Under any schedule of failures, a token that the bootstrap prints is in the database as a pairing
-- token of the local user.
pub bootstrap_token_stored :
    (env : Env) (bytes : List ℕ) (token : Text) (w : World)
    → (bootstrap_local_user env bytes w).0 ≡ some token
    → kind_of (token_with (hash_token env token) (bootstrap_local_user env bytes w).1.db)
      ≡ some (local_user, pairing)
unfolding bootstrap_local_user db_query db_exec insert_user insert_token
bootstrap_token_stored env bytes token w e =
    ground (arith, ==_iff (hash_token env token) (hash_token env token))

-- Under any schedule of failures, a token that the rotation prints is from then on the only pairing
-- token of the local user.
pub local_rotation_replaces :
    (env : Env) (bytes : List ℕ) (token : Text) (w : World)
    → (rotate_local_token env bytes w).0 ≡ some token
    → map token_key (tokens_of local_user pairing (rotate_local_token env bytes w).1.db)
      ≡ hash_token env token ∷ []
unfolding rotate_local_token db_exec insert_token delete_tokens
local_rotation_replaces env bytes token w e = ground (
  arith,
  none_left local_user pairing w.db.tokens,
  ==_iff local_user local_user,
  ==_iff pairing pairing,
)
