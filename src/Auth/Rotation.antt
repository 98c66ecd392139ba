-- ===== src/Auth/Rotation.antt =====
-- rotateToken of internal/pingclaw/handlers.go: its transaction, and what it leaves alone.
use pingclaw_server.Prelude.{
  ℕ, suc, ◌≡◌, refl, ap, ◌∙◌, true, false, not, none, some, List, [], ◌∷◌, arith, Text, codes, ◌==◌,
  if◌then◌else◌, Bool-cases, ◌⊎◌, inl, inr,
}
use pingclaw_server.Kv.{Kv}
use pingclaw_server.Db.{
  Db, Token, is_token_of, is_some, is_kind, user_with, token_with, token_key, delete_tokens,
  insert_token, touch_user,
}
use pingclaw_server.Db.Table.{select, find_by}
use pingclaw_server.World.{World, turn, kv_del, db_query, db_exec, attempt}
use pingclaw_server.World.Laws.{IsHealthy, IsDbOnly, db_only_rules}
use pingclaw_server.Token.{Env, hash_token, generate_token}
use pingclaw_server.Auth.{
  auth_cache_key, rotate_token, replace_tokens, finish_rotation, forget, hashes_of, or_empty,
}

-- The row that a rotation inserts.
abbrev pub new_row : World → Text → Text → Text → Token
new_row w hash user_id kind = record {
  token_hash = hash;
  user_id = user_id;
  kind = kind;
  label = some (codes "rotate");
  created_at = w.clock;
  last_used_at = none;
}

abbrev pub other_tokens : Text → Text → Db → List Token
other_tokens user_id kind db = select (λ t. not (is_token_of user_id kind t)) db.tokens

module _ (user_id kind hash : Text) (w : World) where
  -- Whatever fails, the tokens are all as they were, or the user's tokens of that kind have given
  -- way to the new one and no other token has changed.
  pub replace_tokens_atomic :
      ((replace_tokens user_id kind hash w).0 ≡ true
        × (replace_tokens user_id kind hash w).1.db.tokens
          ≡ new_row w hash user_id kind ∷ other_tokens user_id kind w.db)
      ⊎ ((replace_tokens user_id kind hash w).0 ≡ false
          × (replace_tokens user_id kind hash w).1.db ≡ w.db)
  unfolding replace_tokens db_exec delete_tokens insert_token touch_user attempt
  replace_tokens_atomic = ground arith

pub replace_tokens-IsDbOnly :
    (user_id kind hash : Text) → IsDbOnly (replace_tokens user_id kind hash)
unfolding replace_tokens
replace_tokens-IsDbOnly user_id kind hash = search db_only_rules depth 9

pub forget-db : (hashes : List Text) (w : World) → (forget hashes w).1.db ≡ w.db
unfolding forget kv_del
forget-db [] w = refl
forget-db (hash ∷ hashes) w = forget-db hashes _

-- Under any schedule of failures: a rotation that returns a token has replaced the user's tokens of
-- that kind by the one whose hash is the new token's, and no other; one that returns an error has
-- changed neither the database nor the store.
pub rotate_token_atomic :
    (env : Env) (bytes : List ℕ) (user_id kind prefix : Text) (w : World)
    → ((rotate_token env bytes user_id kind prefix w).0 ≡ some (generate_token prefix bytes)
        × (rotate_token env bytes user_id kind prefix w).1.db.tokens
          ≡ new_row w (hash_token env (generate_token prefix bytes)) user_id kind
            ∷ other_tokens user_id kind w.db)
      ⊎ ((rotate_token env bytes user_id kind prefix w).0 ≡ none
          × (rotate_token env bytes user_id kind prefix w).1.db ≡ w.db
          × (rotate_token env bytes user_id kind prefix w).1.kv ≡ w.kv)
unfolding rotate_token db_query
rotate_token_atomic env bytes user_id kind prefix w = ground (
  arith,
  replace_tokens_atomic user_id kind (hash_token env (generate_token prefix bytes)) (turn w),
  forget-db (or_empty (if w.works 0 then some (hashes_of user_id kind w.db) else none))
      (replace_tokens user_id kind (hash_token env (generate_token prefix bytes)) (turn w)).1,
  (replace_tokens-IsDbOnly user_id kind (hash_token env (generate_token prefix bytes))).same_kv
      (turn w),
)

pub forget-frame :
    (hashes : List Text) (w : World) (k : Text)
    → ((h : Text) → (auth_cache_key h == k) ≡ false)
    → (forget hashes w).1.kv k ≡ w.kv k
unfolding forget kv_del
forget-frame [] w k ne = refl
forget-frame (hash ∷ hashes) w k ne = forget-frame hashes _ k ne ∙ ground (arith, ne hash)

-- A rotation touches no key of the store but those of the authentication cache.
pub rotate_token-frame :
    (env : Env) (bytes : List ℕ) (user_id kind prefix : Text) (w : World) (k : Text)
    → ((h : Text) → (auth_cache_key h == k) ≡ false)
    → (rotate_token env bytes user_id kind prefix w).1.kv k ≡ w.kv k
unfolding rotate_token db_query finish_rotation
rotate_token-frame env bytes user_id kind prefix w k ne =
    let hash = hash_token env (generate_token prefix bytes) in
    let same = (replace_tokens-IsDbOnly user_id kind hash).same_kv (turn w) in
    elim (Bool-cases (replace_tokens user_id kind hash (turn w)).0) [
      | inl done ↦ rw done (forget-frame _ _ k ne ∙ ap (λ (m : Kv). m k) same)
      | inr failed ↦ rw failed (ap (λ (m : Kv). m k) same)
    ]

find_by-others :
    (hash user_id kind : Text) (ts : List Token)
    → find_by token_key hash ts ≡ none
    → find_by token_key hash (select (λ t. not (is_token_of user_id kind t)) ts) ≡ none
find_by-others hash user_id kind [] e = refl
find_by-others hash user_id kind (t ∷ ts) e = ground (arith, find_by-others hash user_id kind ts)

module _ (user_id kind hash : Text) (w : World) where
  replace_tokens_works :
      IsHealthy w
      → is_some (user_with user_id w.db) ≡ true
      → is_kind kind ≡ true
      → token_with hash w.db ≡ none
      → (replace_tokens user_id kind hash w).0 ≡ true
  unfolding replace_tokens db_exec delete_tokens insert_token touch_user attempt
  replace_tokens_works u known k fresh = ground (
    arith,
    u.up 0,
    u.up 1,
    u.up 2,
    u.up 3,
    u.up 4,
    known,
    k,
    find_by-others hash user_id kind w.db.tokens fresh,
  )

-- A rotation returns the new token if every call works, the user is there, the kind is one of the
-- three and no token has the new one's hash.
pub rotate_token_works :
    (env : Env) (bytes : List ℕ) (user_id kind prefix : Text) (w : World)
    → IsHealthy w
    → is_some (user_with user_id w.db) ≡ true
    → is_kind kind ≡ true
    → token_with (hash_token env (generate_token prefix bytes)) w.db ≡ none
    → (rotate_token env bytes user_id kind prefix w).0 ≡ some (generate_token prefix bytes)
unfolding rotate_token finish_rotation db_query
rotate_token_works env bytes user_id kind prefix w u known k fresh =
    rw
      (replace_tokens_works user_id kind (hash_token env (generate_token prefix bytes)) (turn w)
        (record { up = λ n. u.up (suc n) }) known k fresh)
      refl
