-- ===== src/Examples/Tokens.antt =====
-- Tokens, the middleware and the deletion of an account on the concrete server.
use pingclaw_server.Prelude.{◌≡◌, ◌≢◌, refl, true, none, some, [], ◌∷◌, ◌⊎◌, codes}
use pingclaw_server.Text.{has_prefix, trim_prefix, hex_encode}
use pingclaw_server.Db.{token_with, delete_tokens, insert_token, touch_user}
use pingclaw_server.World.{db_query, db_exec, attempt}
use pingclaw_server.Http.{write_error}
use pingclaw_server.Token.{hash_token, generate_token}
use pingclaw_server.Auth.{rejected, check_auth, rotate_token}
use pingclaw_server.Auth.Cache.{uncached_check, check_auth-uncached}
use pingclaw_server.Auth.Rotation.{new_row, other_tokens, rotate_token_atomic}
use pingclaw_server.Auth.Revocation.{rotation_revokes}
use pingclaw_server.Account.{
  delete_account, location_key, webhook_cache_key, openclaw_dest_cache_key,
}
use pingclaw_server.Account.Deletion.{
  erased, delete_account_erases, delete_account_revokes, delete_account_keeps_activity,
}
use pingclaw_server.Integration.{integration_key}
use pingclaw_server.Examples.{
  env, alice, api_key, old_authorization, key_row, world, session, world-IsHealthy,
  world-IsCoherent,
}

prefix_found : has_prefix old_authorization (codes "Bearer ") ≡ true
unfolding has_prefix
prefix_found = refl

row_found :
    token_with (hash_token env (trim_prefix old_authorization (codes "Bearer "))) world.db
    ≡ some key_row
unfolding hash_token trim_prefix hex_encode
row_found = refl

other_hash :
    hash_token env (generate_token (codes "ak_") (1 ∷ []))
    ≢ hash_token env (trim_prefix old_authorization (codes "Bearer "))
unfolding hash_token trim_prefix hex_encode generate_token
other_hash = λ e. cc

rotated :
    (rotate_token env (1 ∷ []) alice api_key (codes "ak_") world).0
    ≡ some (generate_token (codes "ak_") (1 ∷ []))
unfolding rotate_token db_query db_exec attempt delete_tokens insert_token touch_user
rotated = refl

rotation_revokes_example :
    (check_auth env [] old_authorization
      (rotate_token env (1 ∷ []) alice api_key (codes "ak_") world).1).0
    ≡ rejected (write_error 401 "invalid token")
rotation_revokes_example =
    rotation_revokes env (1 ∷ []) (codes "ak_") old_authorization [] world key_row world-IsHealthy
      world-IsCoherent prefix_found row_found other_hash rotated

check_auth-uncached_example :
    (check_auth env (api_key ∷ []) old_authorization world).0
    ≡ uncached_check env (api_key ∷ []) old_authorization world.db
check_auth-uncached_example =
    check_auth-uncached env (api_key ∷ []) old_authorization world world-IsHealthy world-IsCoherent

rotate_token_atomic_example :
    ((rotate_token env (1 ∷ []) alice api_key (codes "ak_") world).0
        ≡ some (generate_token (codes "ak_") (1 ∷ []))
      × (rotate_token env (1 ∷ []) alice api_key (codes "ak_") world).1.db.tokens
        ≡ new_row world (hash_token env (generate_token (codes "ak_") (1 ∷ []))) alice api_key
          ∷ other_tokens alice api_key world.db)
    ⊎ ((rotate_token env (1 ∷ []) alice api_key (codes "ak_") world).0 ≡ none
        × (rotate_token env (1 ∷ []) alice api_key (codes "ak_") world).1.db ≡ world.db
        × (rotate_token env (1 ∷ []) alice api_key (codes "ak_") world).1.kv ≡ world.kv)
rotate_token_atomic_example = rotate_token_atomic env (1 ∷ []) alice api_key (codes "ak_") world

delete_account_revokes_example :
    (check_auth env [] old_authorization (delete_account session world).1).0
    ≡ rejected (write_error 401 "invalid token")
delete_account_revokes_example =
    delete_account_revokes env [] old_authorization session world key_row world-IsHealthy
      world-IsCoherent prefix_found row_found refl

delete_account_erases_example :
    ((delete_account session world).0.status ≡ 200)
    × ((delete_account session world).1.db ≡ erased alice world.db)
    × ((delete_account session world).1.kv (location_key alice) ≡ none)
    × ((delete_account session world).1.kv (webhook_cache_key alice) ≡ none)
    × ((delete_account session world).1.kv (openclaw_dest_cache_key alice) ≡ none)
delete_account_erases_example = delete_account_erases session world world-IsHealthy

delete_account_keeps_activity_example :
    (delete_account session world).1.kv (integration_key alice (codes "mcp"))
    ≡ world.kv (integration_key alice (codes "mcp"))
delete_account_keeps_activity_example = delete_account_keeps_activity session (codes "mcp") world
