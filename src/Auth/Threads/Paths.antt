-- ===== src/Auth/Threads/Paths.antt =====
-- Steps of threads in a row: requireAuthKinds and rotateToken of internal/pingclaw/handlers.go.
use pingclaw_server.Prelude.{
  ℕ, ◌≡◌, refl, ap, subst, ◌∙◌, List, [], ◌∷◌, Text, nat_beq, nat_beq_iff, Bool-cases, inl, inr,
  fun_ext,
}
use pingclaw_server.World.{World, kv_del}
use pingclaw_server.Auth.{auth_cache_key, forget}
use pingclaw_server.Auth.Threads.{
  Pc, idle, drop_caches, step, System, put, Step, move, Reach, here, next,
}

pub Reach-trans : {s t u : System} → Reach s t → Reach t u → Reach s u
Reach-trans r here = r
Reach-trans r (next q st) = next (Reach-trans r q) st

abbrev pub system : World → (ℕ → Pc) → System
system w threads = record { world = w; threads = threads }

-- A move of a thread whose step is known.
pub move_to :
    (i : ℕ) (w w' : World) (threads : ℕ → Pc) (p q : Pc)
    → threads i ≡ p
    → step p w ≡ (q, w')
    → Step (system w threads) (system w' (put i q threads))
move_to i w w' threads p q at_p e =
    subst (λ (r : Pc × World). Step (system w threads) (system r.1 (put i r.0 threads)))
      (ap (λ x. step x w) at_p ∙ e) (move i)

pub put-put : (i : ℕ) (p q : Pc) (threads : ℕ → Pc) → put i p (put i q threads) ≡ put i p threads
put-put i p q threads =
    fun_ext
      (λ j. elim (Bool-cases (nat_beq i j)) [ inl same ↦ rw same refl | inr other ↦ rw other refl ])

put_self : (i : ℕ) (p : Pc) (threads : ℕ → Pc) → put i p threads i ≡ p
put_self i p threads = rw ((nat_beq_iff i i).1 refl) refl

pub drops :
    (i : ℕ) (old : List Text) (w : World) (threads : ℕ → Pc)
    → threads i ≡ drop_caches old
    → Reach (system w threads) (system (forget old w).1 (put i idle threads))
unfolding forget step
drops i [] w threads e = next here (move_to i w w threads (drop_caches []) idle e refl)
drops i (hash ∷ old) w threads e =
    let w' : World = (kv_del (auth_cache_key hash) w).1 in
    let first = move_to i w w' threads (drop_caches (hash ∷ old)) (drop_caches old) e refl in
    let rest = drops i old w' (put i (drop_caches old) threads) (put_self i _ threads) in
    Reach-trans (next here first) (
      subst
        (λ ts. Reach (system w' (put i (drop_caches old) threads)) (system (forget old w').1 ts))
        (put-put i idle (drop_caches old) threads) rest)
