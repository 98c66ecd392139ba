-- ===== src/Auth/Forgotten.antt =====
-- What rotateToken and DeleteAccount (internal/pingclaw/handlers.go) leave in the cache of
-- requireAuthKinds.
use pingclaw_server.Prelude.{
  ℕ, suc, ◌≡◌, refl, Bool, true, false, Option, none, some, List, [], ◌∷◌, map, any, arith, Text,
  ◌==◌, if◌then◌else◌,
}
use pingclaw_server.Kv.{Entry, live}
use pingclaw_server.Db.{Token, token_key}
use pingclaw_server.Db.Table.{select, find_by}
use pingclaw_server.World.{World, kv_del}
use pingclaw_server.World.Laws.{IsHealthy}
use pingclaw_server.Auth.{auth_cache_key, finish_rotation, forget}
use pingclaw_server.Auth.Cache.{Agrees}

abbrev pub member : Text → List Text → Bool
member h hashes = any (λ x. x == h) hashes

pub forget-kv :
    (hashes : List Text) (w : World) (h : Text)
    → IsHealthy w
    → (forget hashes w).1.kv (auth_cache_key h)
      ≡ (if member h hashes then none else w.kv (auth_cache_key h))
unfolding forget kv_del
forget-kv [] w h u = refl
forget-kv (x ∷ hashes) w h u =
    let w' : World = (kv_del (auth_cache_key x) w).1 in
    let u' : IsHealthy w' = record { up = λ n. u.up (suc n) } in
    ground (arith, forget-kv hashes w' h u', u.up 0)

pub forget-clock : (hashes : List Text) (w : World) → (forget hashes w).1.clock ≡ w.clock
unfolding forget kv_del
forget-clock [] w = refl
forget-clock (hash ∷ hashes) w = forget-clock hashes _

-- The hash of a row that is selected is among the hashes of the selection.
pub member-hashes :
    (p : Token → Bool) (h : Text) (ts : List Token) {t : Token}
    → find_by token_key h ts ≡ some t
    → p t ≡ true
    → member h (map token_key (select p ts)) ≡ true
member-hashes p h [] e q = ground arith
member-hashes p h (x ∷ ts) {t} e q = ground (arith, member-hashes p h ts {t = t})

pub Agrees-forgotten : (b : Bool) (row : Option Token) → Agrees (if b then none else none) row
Agrees-forgotten true row = tt
Agrees-forgotten false row = tt

pub Agrees-kept :
    (b : Bool) (entry : Option Entry) (row : Option Token)
    → Agrees entry row
    → Agrees (if b then none else entry) row
Agrees-kept true entry row a = tt
Agrees-kept false entry row a = a

pub live-forgotten :
    (b : Bool) (now : ℕ) (o : Option Entry)
    → live now (if b then none else o) ≡ (if b then none else live now o)
live-forgotten true now o = refl
live-forgotten false now o = refl

pub forget-IsHealthy :
    (hashes : List Text) (w : World) → IsHealthy w → IsHealthy (forget hashes w).1
unfolding forget kv_del
forget-IsHealthy [] w u = u
forget-IsHealthy (hash ∷ hashes) w u = forget-IsHealthy hashes _ (record { up = λ n. u.up (suc n) })

pub finish_rotation-IsHealthy :
    (old : List Text) (tok : Text) (done : Bool) (w : World)
    → IsHealthy w
    → IsHealthy (finish_rotation old tok done w).1
unfolding finish_rotation
finish_rotation-IsHealthy old tok false w u = u
finish_rotation-IsHealthy old tok true w u = forget-IsHealthy old w u

pub finish_rotation-clock :
    (old : List Text) (tok : Text) (done : Bool) (w : World)
    → (finish_rotation old tok done w).1.clock ≡ w.clock
unfolding finish_rotation
finish_rotation-clock old tok false w = refl
finish_rotation-clock old tok true w = forget-clock old w
