-- ===== src/Auth/Coherence.antt =====
-- rotateToken (internal/pingclaw/handlers.go) and the agreement of the cache of requireAuthKinds with
-- the tables.
use pingclaw_server.Prelude.{
  ℕ, suc, ◌≡◌, refl, ◌∙◌, subst, false, not, Option, none, some, List, ◌∷◌, Text, codes, ◌==◌,
  ==_iff, if◌then◌else◌, Bool-cases, inl, inr,
}
use pingclaw_server.Kv.{Entry, live}
use pingclaw_server.Db.{Db, Token, token_with, is_token_of, token_key}
use pingclaw_server.Db.Table.{find_by, keep, find_by-select, DistinctBy}
use pingclaw_server.Db.Keys.{IsValid, insert_token-Keeps, delete_tokens-Keeps, touch_user-Keeps}
use pingclaw_server.World.{World, turn, db_query}
use pingclaw_server.World.Valid.{KeepsDb, valid_rules}
use pingclaw_server.World.Laws.{IsHealthy}
use pingclaw_server.Token.{Env, hash_token, generate_token}
use pingclaw_server.Auth.{auth_cache_key, rotate_token, replace_tokens, forget, hashes_of}
use pingclaw_server.Auth.Cache.{Agrees, IsCoherent}
use pingclaw_server.Auth.Rotation.{
  other_tokens, replace_tokens_atomic, replace_tokens-IsDbOnly, forget-db,
}
use pingclaw_server.Auth.Forgotten.{
  member, forget-kv, forget-clock, member-hashes, Agrees-forgotten, Agrees-kept, live-forgotten,
  finish_rotation-IsHealthy, finish_rotation-clock,
}

pub token_with-others :
    (user_id kind h : Text) (db : Db)
    → IsValid db
    → find_by token_key h (other_tokens user_id kind db)
      ≡ keep (λ t. not (is_token_of user_id kind t)) (token_with h db)
token_with-others user_id kind h db v = find_by-select token_key _ h db.tokens v.token_keys

replace_tokens-KeepsDb : (user_id kind hash : Text) → KeepsDb (replace_tokens user_id kind hash)
unfolding replace_tokens
replace_tokens-KeepsDb user_id kind hash =
    search
      (
        valid_rules,
        λ (now : ℕ). delete_tokens-Keeps user_id kind,
        λ (now : ℕ). insert_token-Keeps now hash user_id kind (codes "rotate"),
        λ (now : ℕ). touch_user-Keeps now user_id,
      )
      depth 9

-- A token that the rotation does not concern is still found.
other_token_found :
    (user_id kind h : Text) (db : Db) (row t : Token)
    → IsValid db
    → find_by token_key row.token_hash (other_tokens user_id kind db) ≡ none
    → token_with h db ≡ some t
    → is_token_of user_id kind t ≡ false
    → find_by token_key h (row ∷ other_tokens user_id kind db) ≡ some t
other_token_found user_id kind h db row t v fresh e q =
    let found : find_by token_key h (other_tokens user_id kind db) ≡ some t =
      token_with-others user_id kind h db v ∙ (rw e (rw q)) in
    elim (Bool-cases (row.token_hash == h)) [
      | inl same ↦ absurd (cc (found, fresh, (==_iff row.token_hash h).0 same))
      | inr other ↦ rw other found
    ]

-- One hash after a rotation: the cache entry, unless it was forgotten, agrees with the row.
Agrees-after :
    (user_id kind h : Text) (db : Db) (row : Token) (entry : Option Entry) (old : Option Token)
    → IsValid db
    → find_by token_key row.token_hash (other_tokens user_id kind db) ≡ none
    → token_with h db ≡ old
    → Agrees entry old
    → Agrees
        (if member h (hashes_of user_id kind db) then none else entry)
        (find_by token_key h (row ∷ other_tokens user_id kind db))
Agrees-after user_id kind h db row none old v fresh e a = Agrees-forgotten _ _
Agrees-after user_id kind h db row (some entry) none v fresh e a = absurd a
Agrees-after user_id kind h db row (some entry) (some t) v fresh e a =
    elim (Bool-cases (is_token_of user_id kind t)) [
      | inl concerned ↦ rw (member-hashes (is_token_of user_id kind) h db.tokens e concerned) tt
      | inr other ↦
          rw (other_token_found user_id kind h db row t v fresh e other)
            (Agrees-kept (member h (hashes_of user_id kind db)) (some entry) (some t) a)
    ]

IsCoherent-after :
    (user_id kind : Text) (w w' : World) (row : Token)
    → IsHealthy w'
    → w'.kv ≡ w.kv
    → w'.clock ≡ w.clock
    → IsValid w'.db
    → w'.db.tokens ≡ row ∷ other_tokens user_id kind w.db
    → IsCoherent w
    → IsCoherent (forget (hashes_of user_id kind w.db) w').1
IsCoherent-after user_id kind w w' row u same_kv same_clock v e c =
    let hashes = hashes_of user_id kind w.db in
    record {
      valid = rw (forget-db hashes w') v;
      agrees = λ h.
          rw
            (
              forget-db hashes w',
              forget-clock hashes w',
              forget-kv hashes w' h u,
              same_kv,
              same_clock,
              e,
              live-forgotten,
            )
            (Agrees-after user_id kind h w.db row (live w.clock (w.kv (auth_cache_key h)))
              (token_with h w.db) c.valid (subst (DistinctBy token_key) e v.token_keys).0 refl
              (c.agrees h));
    }

IsCoherent-turn : (w : World) → IsCoherent w → IsCoherent (turn w)
IsCoherent-turn w c = record { valid = c.valid; agrees = c.agrees }

-- While every call works, a rotation keeps the cache in agreement with the database.
pub rotate_token-IsCoherent :
    (env : Env) (bytes : List ℕ) (user_id kind prefix : Text) (w : World)
    → IsHealthy w
    → IsCoherent w
    → IsCoherent (rotate_token env bytes user_id kind prefix w).1
unfolding rotate_token db_query
rotate_token-IsCoherent env bytes user_id kind prefix w u c =
    let hash = hash_token env (generate_token prefix bytes) in
    let db_only = replace_tokens-IsDbOnly user_id kind hash in
    let u' : IsHealthy (turn w) = record { up = λ n. u.up (suc n) } in
    let valid = (replace_tokens-KeepsDb user_id kind hash).at (turn w) c.valid in
    elim (replace_tokens_atomic user_id kind hash (turn w)) [
      | inl (done, e) ↦
          rw (done, u.up 0)
            (IsCoherent-after user_id kind w (replace_tokens user_id kind hash (turn w)).1 _
              (db_only.healthy (turn w) u') (db_only.same_kv (turn w)) (db_only.same_clock (turn w))
              valid e c)
      | inr (failed, e) ↦ rw failed (record {
        valid = valid;
        agrees = λ h. rw (db_only.same_kv (turn w), db_only.same_clock (turn w), e) (c.agrees h);
      })
    ]

pub rotate_token-IsHealthy :
    (env : Env) (bytes : List ℕ) (user_id kind prefix : Text) (w : World)
    → IsHealthy w
    → IsHealthy (rotate_token env bytes user_id kind prefix w).1
unfolding rotate_token db_query
rotate_token-IsHealthy env bytes user_id kind prefix w u = finish_rotation-IsHealthy _ _ _ _ (
    (replace_tokens-IsDbOnly user_id kind (hash_token env (generate_token prefix bytes))).healthy
      (turn w) (record { up = λ n. u.up (suc n) }))

pub rotate_token-clock :
    (env : Env) (bytes : List ℕ) (user_id kind prefix : Text) (w : World)
    → (rotate_token env bytes user_id kind prefix w).1.clock ≡ w.clock
unfolding rotate_token db_query
rotate_token-clock env bytes user_id kind prefix w =
    finish_rotation-clock _ _ _ _
    ∙ (replace_tokens-IsDbOnly user_id kind
          (hash_token env (generate_token prefix bytes))).same_clock
        (turn w)
