-- ===== src/Auth/Threads/Honest.antt =====
-- What the world and a thread owe to the tokens that were issued, kept by each step of requireAuthKinds
-- and rotateToken (internal/pingclaw/handlers.go).
use pingclaw_server.Prelude.{
  ℕ, ◌+◌, ◌*◌, ◌^◌, ◌≤◌, ◌≡◌, refl, subst, true, not, Option, none, some, [], ◌∷◌, All, arith, Text,
  ◌==◌, ==_iff, Bool-cases, inl, inr,
}
use pingclaw_server.Kv.{Entry, found, live, expired, value_of, get, set, del}
use pingclaw_server.Db.{Token, token_key, token_with, touch_token, mark_used, is_kind, is_token_of}
use pingclaw_server.Db.Table.{find_by-key, All-find_by, All-select_imp, All-map_imp}
use pingclaw_server.World.{World, kv_get, kv_set, kv_del, db_query, db_exec}
use pingclaw_server.Auth.{Session, auth_cache_key, cached_value, cached_session, replace_tokens}
use pingclaw_server.Auth.Cache.{cached_hit}
use pingclaw_server.Auth.Rotation.{replace_tokens_atomic, replace_tokens-IsDbOnly}
use pingclaw_server.Auth.Threads.{
  Pc, idle, get_cache, query_row, set_cache, touch_row, accepted, refused, get_hashes, replace,
  drop_caches, step, after_get, after_query,
}

-- `Issued hash user kind`: a token with that hash was issued to the user, as one of that kind.
module _ (Issued : Text → Text → Text → Type 0) where
  abbrev pub IsIssued : Text → Token → Type 0
  IsIssued hash t = (is_kind t.kind ≡ true) × Issued hash t.user_id t.kind

  -- A cache entry of a token that was issued; it ends at most five minutes after the given time.
  pub record IsOwed (now : ℕ) (hash : Text) (e : Entry) : Type 0 where
    pub user_id : Text
    pub kind : Text
    pub ends : ℕ
    pub value : e.value ≡ cached_value user_id kind
    pub known : is_kind kind ≡ true
    pub issued : Issued hash user_id kind
    pub expiry : e.expires_at ≡ some ends
    pub soon : ends ≤ now + 300 * 10 ^ 9

  pub record IsHonest (w : World) : Type 0 where
    pub rows : All (λ t. IsIssued t.token_hash t) w.db.tokens
    pub cache :
        (hash : Text) (e : Entry) → w.kv (auth_cache_key hash) ≡ some e → IsOwed w.clock hash e

  abbrev pub IsHonestPc : Pc → Type 0
  IsHonestPc (set_cache hash t) = IsIssued hash t
  IsHonestPc (touch_row hash t) = IsIssued hash t
  IsHonestPc (accepted hash s) = Issued hash s.user_id s.kind
  IsHonestPc (get_hashes user_id kind hash) = (is_kind kind ≡ true) × Issued hash user_id kind
  IsHonestPc (replace user_id kind hash old) = (is_kind kind ≡ true) × Issued hash user_id kind
  IsHonestPc _ = Unit {0}

  -- The same tables, and a store with nothing new in the cache.
  IsHonest-less :
      (w w' : World)
      → w'.db ≡ w.db
      → w'.clock ≡ w.clock
      → ((hash : Text) (e : Entry)
          → w'.kv (auth_cache_key hash) ≡ some e
          → w.kv (auth_cache_key hash) ≡ some e)
      → IsHonest w
      → IsHonest w'
  IsHonest-less w w' db clock less h = record {
    rows = rw db h.rows;
    cache = λ hash e p. rw clock (h.cache hash e (less hash e p));
  }

  Hit : Text → Option Session → Type 0
  Hit hash none = Unit {0}
  Hit hash (some s) = Issued hash s.user_id s.kind

  hit_owed :
      (hash : Text) (now : ℕ) (e : Entry)
      → IsOwed now hash e
      → Hit hash (cached_session (found e.value))
  unfolding Hit
  hit_owed hash now e o = elim (cached_hit e o.user_id o.kind o.known o.value) [
    | inl p ↦ rw p o.issued
    | inr p ↦ rw p tt
  ]

  hit_live :
      (hash : Text) (w : World) (o : Option Entry)
      → IsHonest w
      → w.kv (auth_cache_key hash) ≡ o
      → Hit hash (cached_session (value_of (live w.clock o)))
  unfolding Hit
  hit_live hash w none h p = tt
  hit_live hash w (some e) h p = elim (Bool-cases (expired e w.clock)) [
    | inl dead ↦ rw dead tt
    | inr fresh ↦ rw fresh (hit_owed hash w.clock e (h.cache hash e p))
  ]

  hit_reply :
      (hash : Text) (w : World)
      → IsHonest w
      → Hit hash (cached_session (kv_get (auth_cache_key hash) w).0)
  unfolding kv_get Hit get
  hit_reply hash w h = elim (Bool-cases (w.works 0)) [
    | inl up ↦ rw up (hit_live hash w (w.kv (auth_cache_key hash)) h refl)
    | inr down ↦ rw down tt
  ]

  after_get-IsHonestPc :
      (hash : Text) (s : Option Session) → Hit hash s → IsHonestPc (after_get hash s)
  unfolding Hit
  after_get-IsHonestPc hash none p = tt
  after_get-IsHonestPc hash (some s) p = p

  row-IsHonestPc :
      (hash : Text) (w : World) (row : Option Token)
      → IsHonest w
      → token_with hash w.db ≡ row
      → IsHonestPc (after_query hash (some row))
  row-IsHonestPc hash w none h e = tt
  row-IsHonestPc hash w (some t) h e =
      subst (λ k. IsIssued k t) (find_by-key token_key hash w.db.tokens e)
        (All-find_by (λ (r : Token). IsIssued r.token_hash r) token_key hash w.db.tokens h.rows e)

  query-IsHonestPc :
      (hash : Text) (w : World)
      → IsHonest w
      → IsHonestPc (after_query hash (db_query (token_with hash) w).0)
  unfolding db_query
  query-IsHonestPc hash w h = elim (Bool-cases (w.works 0)) [
    | inl up ↦ rw up (row-IsHonestPc hash w (token_with hash w.db) h refl)
    | inr down ↦ rw down tt
  ]

  -- The entry that the middleware caches.
  fresh_entry : Text → Token → ℕ → Entry
  fresh_entry hash t now = record {
    value = cached_value t.user_id t.kind;
    expires_at = some (now + 300 * 10 ^ 9);
  }

  fresh-IsOwed :
      (hash : Text) (t : Token) (now : ℕ)
      → IsIssued hash t
      → IsOwed now hash (fresh_entry hash t now)
  unfolding fresh_entry
  fresh-IsOwed hash t now p = record {
    user_id = t.user_id;
    kind = t.kind;
    ends = now + 300 * 10 ^ 9;
    value = refl;
    known = p.0;
    issued = p.1;
    expiry = refl;
    soon = omega arith;
  }

  set-IsHonest :
      (hash : Text) (t : Token) (w : World)
      → IsIssued hash t
      → IsHonest w
      → IsHonest (step (set_cache hash t) w).1
  unfolding step kv_set set fresh_entry
  set-IsHonest hash t w p h = record {
    rows = h.rows;
    cache = λ j e q. elim (Bool-cases (w.works 0)) [
      | inr down ↦ h.cache j e (rw down at q)
      | inl up ↦ elim (Bool-cases (hash == j)) [
        | inr other ↦ h.cache j e (rw (up, other) at q)
        | inl same ↦
            let new : some (fresh_entry hash t w.clock) ≡ some e = rw (up, same) at q in
            let now = fresh-IsOwed hash t w.clock p in
            subst (λ k. IsOwed w.clock k e) ((==_iff hash j).0 same)
              (subst (λ o. IsOwed w.clock hash o) (cc) now)
      ]
    ];
  }

  marked-IsIssued :
      (now : ℕ) (hash : Text) (t : Token)
      → IsIssued t.token_hash t
      → IsIssued (mark_used now hash t).token_hash (mark_used now hash t)
  marked-IsIssued now hash t p = elim (Bool-cases (t.token_hash == hash)) [
    | inl hit ↦ rw hit p
    | inr miss ↦ rw miss p
  ]

  touch-IsHonest :
      (hash : Text) (t : Token) (w : World) → IsHonest w → IsHonest (step (touch_row hash t) w).1
  unfolding step db_exec touch_token
  touch-IsHonest hash t w h = record {
    rows = elim (Bool-cases (w.works 0)) [
      | inl up ↦ rw up (
          All-map_imp (λ (r : Token). IsIssued r.token_hash r)
            (λ (r : Token). IsIssued r.token_hash r) (mark_used w.clock hash)
            (marked-IsIssued w.clock hash) w.db.tokens h.rows)
      | inr down ↦ rw down h.rows
    ];
    cache = h.cache;
  }

  replace-IsHonest :
      (user_id kind hash : Text) (w : World)
      → is_kind kind ≡ true
      → Issued hash user_id kind
      → IsHonest w
      → IsHonest (replace_tokens user_id kind hash w).1
  replace-IsHonest user_id kind hash w k p h =
      let alone = replace_tokens-IsDbOnly user_id kind hash in
      let kv = alone.same_kv w in
      let clock = alone.same_clock w in
      elim (replace_tokens_atomic user_id kind hash w) [
        | inl (_, e) ↦ record {
          rows = rw e (
            (k, p),
            All-select_imp (λ (r : Token). IsIssued r.token_hash r)
                (λ (r : Token). IsIssued r.token_hash r) (λ r. not (is_token_of user_id kind r))
                (λ r q i. i) w.db.tokens h.rows,
          );
          cache = λ j e q. rw clock (h.cache j e (rw kv at q));
        }
        | inr (_, e) ↦
            IsHonest-less w (replace_tokens user_id kind hash w).1 e clock (λ j e q. rw kv at q) h
      ]

  drop-IsHonest :
      (hash : Text) (w : World) → IsHonest w → IsHonest (kv_del (auth_cache_key hash) w).1
  unfolding kv_del del
  drop-IsHonest hash w h = record {
    rows = h.rows;
    cache = λ j e q. elim (Bool-cases (w.works 0)) [
      | inr down ↦ h.cache j e (rw down at q)
      | inl up ↦ elim (Bool-cases (hash == j)) [
        | inl gone ↦ absurd (let none_left = rw (up, gone) at q in cc)
        | inr other ↦ h.cache j e (rw (up, other) at q)
      ]
    ];
  }

  IsHonest-read :
      (w w' : World) → w'.db ≡ w.db → w'.clock ≡ w.clock → w'.kv ≡ w.kv → IsHonest w → IsHonest w'
  IsHonest-read w w' db clock kv h = IsHonest-less w w' db clock (λ j e q. rw kv at q) h

  pub step-IsHonest : (p : Pc) (w : World) → IsHonest w → IsHonestPc p → IsHonest (step p w).1
  unfolding step kv_get db_query
  step-IsHonest idle w h o = h
  step-IsHonest (get_cache hash) w h o = IsHonest-read w _ refl refl refl h
  step-IsHonest (query_row hash) w h o = IsHonest-read w _ refl refl refl h
  step-IsHonest (set_cache hash t) w h o = set-IsHonest hash t w o h
  step-IsHonest (touch_row hash t) w h o = touch-IsHonest hash t w h
  step-IsHonest (accepted hash s) w h o = h
  step-IsHonest (refused hash r) w h o = h
  step-IsHonest (get_hashes user_id kind hash) w h o = IsHonest-read w _ refl refl refl h
  step-IsHonest (replace user_id kind hash old) w h o =
      replace-IsHonest user_id kind hash w o.0 o.1 h
  step-IsHonest (drop_caches []) w h o = h
  step-IsHonest (drop_caches (hash ∷ old)) w h o = drop-IsHonest hash w h

  pub step-IsHonestPc : (p : Pc) (w : World) → IsHonest w → IsHonestPc p → IsHonestPc (step p w).0
  unfolding step
  step-IsHonestPc idle w h o = tt
  step-IsHonestPc (get_cache hash) w h o = after_get-IsHonestPc hash _ (hit_reply hash w h)
  step-IsHonestPc (query_row hash) w h o = query-IsHonestPc hash w h
  step-IsHonestPc (set_cache hash t) w h o = o
  step-IsHonestPc (touch_row hash t) w h o = o.1
  step-IsHonestPc (accepted hash s) w h o = o
  step-IsHonestPc (refused hash r) w h o = tt
  step-IsHonestPc (get_hashes user_id kind hash) w h o = o
  step-IsHonestPc (replace user_id kind hash old) w h o =
      elim (Bool-cases (replace_tokens user_id kind hash w).0) [
        | inl done ↦ rw done tt
        | inr undone ↦ rw undone tt
      ]
  step-IsHonestPc (drop_caches []) w h o = tt
  step-IsHonestPc (drop_caches (hash ∷ old)) w h o = tt
