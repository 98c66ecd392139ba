-- ===== src/Examples/Local.antt =====
-- The bootstrap of an empty database, and a rotation after it.
use pingclaw_server.Prelude.{ℕ, ◌≡◌, refl, some, List, [], ◌∷◌, Text, codes, map}
use pingclaw_server.Db
use pingclaw_server.Db.{token_key, token_with, tokens_of, insert_user, insert_token, delete_tokens}
use pingclaw_server.World.{World, db_query, db_exec}
use pingclaw_server.Token.{hash_token, generate_token}
use pingclaw_server.LocalMode.{
  local_user, bootstrap_local_user, rotate_local_token, local_rotation_replaces,
}
use pingclaw_server.Examples.{env, world}

abbrev fresh : World
fresh = record world { db = Db.empty }

abbrev printed : List ℕ → Text
printed bytes = generate_token (codes "pt_") bytes

bootstrapped : (bootstrap_local_user env (1 ∷ []) fresh).0 ≡ some (printed (1 ∷ []))
unfolding bootstrap_local_user db_query db_exec insert_user insert_token
bootstrapped = refl

abbrev started : World
started = (bootstrap_local_user env (1 ∷ []) fresh).1

rotated_locally : (rotate_local_token env (2 ∷ []) started).0 ≡ some (printed (2 ∷ []))
unfolding bootstrap_local_user rotate_local_token db_query db_exec insert_user insert_token
    delete_tokens
rotated_locally = refl

local_rotation_replaces_example :
    map token_key
      (tokens_of local_user (codes "pairing_token") (rotate_local_token env (2 ∷ []) started).1.db)
    ≡ hash_token env (printed (2 ∷ [])) ∷ []
local_rotation_replaces_example =
    local_rotation_replaces env (2 ∷ []) (printed (2 ∷ [])) started rotated_locally
