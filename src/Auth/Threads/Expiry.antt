-- ===== src/Auth/Threads/Expiry.antt =====
-- The entries of the cache in every reachable state of requireAuthKinds and rotateToken
-- (internal/pingclaw/handlers.go).
use pingclaw_server.Prelude.{
  ℕ, ◌+◌, ◌*◌, ◌^◌, ◌≤◌, ◌≡◌, refl, some, [], ◌∷◌, arith, Text, ◌==◌, Bool-cases, ◌⊎◌, inl, inr,
}
use pingclaw_server.Kv.{Entry, set, del}
use pingclaw_server.World.{World, kv_get, kv_set, kv_del, db_query, db_exec}
use pingclaw_server.Auth.{auth_cache_key}
use pingclaw_server.Auth.Rotation.{replace_tokens-IsDbOnly}
use pingclaw_server.Auth.Threads.{
  Pc, idle, get_cache, query_row, set_cache, touch_row, accepted, refused, get_hashes, replace,
  drop_caches, step, System, Step, move, wait, Reach, here, next,
}

-- An entry that ends at most five minutes after a time.
abbrev pub IsShort : ℕ → Entry → Type 0
IsShort now e = (ends : ℕ) × (e.expires_at ≡ some ends) × (ends ≤ now + 300 * 10 ^ 9)

module _ (hash : Text) (e : Entry) where
  step-entry :
      (p : Pc) (w : World)
      → (step p w).1.kv (auth_cache_key hash) ≡ some e
      → (w.kv (auth_cache_key hash) ≡ some e) ⊎ IsShort w.clock e
  unfolding step kv_get kv_set kv_del db_query db_exec set del
  step-entry idle w h = inl h
  step-entry (get_cache k) w h = inl h
  step-entry (query_row k) w h = inl h
  step-entry (set_cache k t) w h = elim (Bool-cases (w.works 0)) [
    | inr down ↦ inl (rw down at h)
    | inl up ↦ elim (Bool-cases (k == hash)) [
      | inr other ↦ inl (rw (up, other) at h)
      | inl same ↦
          let written = rw (up, same) at h in
          inr (w.clock + 300 * 10 ^ 9, ground (arith, written), omega arith)
    ]
  ]
  step-entry (touch_row k t) w h = inl h
  step-entry (accepted k s) w h = inl h
  step-entry (refused k r) w h = inl h
  step-entry (get_hashes user_id kind k) w h = inl h
  step-entry (replace user_id kind k old) w h =
      inl (rw ((replace_tokens-IsDbOnly user_id kind k).same_kv w) at h)
  step-entry (drop_caches []) w h = inl h
  step-entry (drop_caches (k ∷ old)) w h = elim (Bool-cases (w.works 0)) [
    | inr down ↦ inl (rw down at h)
    | inl up ↦ elim (Bool-cases (k == hash)) [
      | inr other ↦ inl (rw (up, other) at h)
      | inl same ↦ let removed = rw (up, same) at h in absurd (ground arith)
    ]
  ]

  step-clock : (p : Pc) (w : World) → (step p w).1.clock ≡ w.clock
  unfolding step kv_get kv_set kv_del db_query db_exec
  step-clock idle w = refl
  step-clock (get_cache k) w = refl
  step-clock (query_row k) w = refl
  step-clock (set_cache k t) w = refl
  step-clock (touch_row k t) w = refl
  step-clock (accepted k s) w = refl
  step-clock (refused k r) w = refl
  step-clock (get_hashes user_id kind k) w = refl
  step-clock (replace user_id kind k old) w = (replace_tokens-IsDbOnly user_id kind k).same_clock w
  step-clock (drop_caches []) w = refl
  step-clock (drop_caches (k ∷ old)) w = refl

  IsShort-later : (now later : ℕ) → now ≤ later → IsShort now e → IsShort later e
  IsShort-later now later p (ends, expiry, soon) = (ends, expiry, omega arith)

  Step-entry :
      {s t : System}
      → Step s t
      → t.world.kv (auth_cache_key hash) ≡ some e
      → (s.world.kv (auth_cache_key hash) ≡ some e) ⊎ IsShort t.world.clock e
  Step-entry {s} (move i) h = elim (step-entry (s.threads i) s.world h) [
    | inl old ↦ inl old
    | inr short ↦ inr (rw (step-clock (s.threads i) s.world) short)
  ]
  Step-entry (wait t p) h = inl h

  Step-clock : {s t : System} → Step s t → s.world.clock ≤ t.world.clock
  Step-clock {s} (move i) = omega (arith, step-clock (s.threads i) s.world)
  Step-clock (wait t p) = p

  Reach-entry :
      {s t : System}
      → Reach s t
      → t.world.kv (auth_cache_key hash) ≡ some e
      → (s.world.kv (auth_cache_key hash) ≡ some e) ⊎ IsShort t.world.clock e
  Reach-entry here h = inl h
  Reach-entry (next {t = m} {u = u} r st) h = elim (Step-entry st h) [
    | inr short ↦ inr short
    | inl old ↦ elim (Reach-entry r old) [
      | inl first ↦ inl first
      | inr short ↦ inr (IsShort-later m.world.clock u.world.clock (Step-clock st) short)
    ]
  ]

-- Whatever the state the threads start in, however they interleave and whichever calls fail: each
-- entry of the authentication cache is one that was there at the start, unchanged, or it ends at
-- most five minutes from now.
pub cache_short_lived :
    (s t : System) (hash : Text) (e : Entry)
    → Reach s t
    → t.world.kv (auth_cache_key hash) ≡ some e
    → (s.world.kv (auth_cache_key hash) ≡ some e)
      ⊎ ((ends : ℕ) × (e.expires_at ≡ some ends) × (ends ≤ t.world.clock + 300 * 10 ^ 9))
cache_short_lived s t hash e r h = Reach-entry hash e r h
