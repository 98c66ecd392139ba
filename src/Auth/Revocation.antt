-- ===== src/Auth/Revocation.antt =====
-- rotateToken and the cache of requireAuthKinds (internal/pingclaw/handlers.go) together, and
-- requests that bear an old token.
use pingclaw_server.Prelude.{
  ℕ, ◌≡◌, ◌≢◌, ◌∙◌, true, none, some, List, ◌∷◌, arith, Text, ◌==◌, ==_iff, Bool-cases, inl, inr,
}
use pingclaw_server.Text.{has_prefix, trim_prefix}
use pingclaw_server.Db.{Db, Token, token_with, is_token_of, token_key}
use pingclaw_server.Db.Table.{find_by}
use pingclaw_server.Db.Keys.{IsValid}
use pingclaw_server.World.{World}
use pingclaw_server.World.Laws.{IsHealthy}
use pingclaw_server.Http.{write_error}
use pingclaw_server.Token.{Env, hash_token, generate_token}
use pingclaw_server.Auth.{rejected, bearer, check_auth, rotate_token}
use pingclaw_server.Auth.Cache.{IsCoherent, check_auth-uncached}
use pingclaw_server.Auth.Rotation.{new_row, other_tokens, rotate_token_atomic}
use pingclaw_server.Auth.Coherence.{
  token_with-others, rotate_token-IsCoherent, rotate_token-IsHealthy,
}

-- The old row is gone, unless the new token has its hash.
pub old_row_gone :
    (user_id kind h : Text) (db : Db) (row t : Token)
    → IsValid db
    → token_with h db ≡ some t
    → is_token_of user_id kind t ≡ true
    → row.token_hash ≢ h
    → find_by token_key h (row ∷ other_tokens user_id kind db) ≡ none
old_row_gone user_id kind h db row t v e q ne = elim (Bool-cases (row.token_hash == h)) [
  | inl same ↦ absurd (ne ((==_iff row.token_hash h).0 same))
  | inr other ↦ rw other (token_with-others user_id kind h db v ∙ rw e (rw q))
]

-- After a rotation that returned a token, while every call works and if the cache agreed with the
-- database before, a request that still bears one of the user's earlier tokens of that kind is
-- rejected with 401, whatever kinds the endpoint accepts; the new token is assumed not to have the
-- old one's hash.
pub rotation_revokes :
    (env : Env) (bytes : List ℕ) (prefix authorization : Text) (kinds : List Text) (w : World)
    (t : Token)
    → IsHealthy w
    → IsCoherent w
    → has_prefix authorization bearer ≡ true
    → token_with (hash_token env (trim_prefix authorization bearer)) w.db ≡ some t
    → hash_token env (generate_token prefix bytes)
      ≢ hash_token env (trim_prefix authorization bearer)
    → (rotate_token env bytes t.user_id t.kind prefix w).0 ≡ some (generate_token prefix bytes)
    → (check_auth env kinds authorization (rotate_token env bytes t.user_id t.kind prefix w).1).0
      ≡ rejected (write_error 401 "invalid token")
rotation_revokes env bytes prefix authorization kinds w t u c b e ne done =
    let rotated : World = (rotate_token env bytes t.user_id t.kind prefix w).1 in
    let h = hash_token env (trim_prefix authorization bearer) in
    let checked =
      check_auth-uncached env kinds authorization rotated
        (rotate_token-IsHealthy env bytes t.user_id t.kind prefix w u)
        (rotate_token-IsCoherent env bytes t.user_id t.kind prefix w u c) in
    let concerned : is_token_of t.user_id t.kind t ≡ true =
      ground (arith, ==_iff t.user_id t.user_id, ==_iff t.kind t.kind) in
    elim (rotate_token_atomic env bytes t.user_id t.kind prefix w) [
      | inl (_, tokens) ↦
          checked
          ∙ rw (
            b,
            tokens,
            old_row_gone t.user_id t.kind h w.db
                (new_row w (hash_token env (generate_token prefix bytes)) t.user_id t.kind) t
                c.valid e concerned ne,
          )
      | inr (failed, _, _) ↦ absurd (cc (failed, done))
    ]
