-- ===== src/Requests/Coherence.antt =====
-- The cache of requireAuthKinds (internal/pingclaw/handlers.go) under any sequence of requests to
-- the server.
use pingclaw_server.Prelude.{
  ℕ, ◌≡◌, refl, Bool, true, false, ◌&&◌, Option, none, some, List, [], ◌∷◌, arith, Text, leb,
  if◌then◌else◌, Bool-cases, inl, inr, subst,
}
use pingclaw_server.Kv.{Entry, live, past, expired}
use pingclaw_server.Db.{Token, token_with}
use pingclaw_server.World.{World, at}
use pingclaw_server.World.Laws.{IsHealthy}
use pingclaw_server.Auth.{auth_cache_key, check_auth}
use pingclaw_server.Auth.Cache.{Agrees, IsCoherent, uncached_check, check_auth-uncached}
use pingclaw_server.Auth.Faithful.{IsFaithful}
use pingclaw_server.Requests.{Server, Request, serve}
use pingclaw_server.Requests.Effects.{serve-IsTraced}
use pingclaw_server.Requests.Tables.{serve_all}

-- The clock does not go back, from the first time over those of the requests to the last.
abbrev pub in_order : ℕ → List (ℕ × Request) → ℕ → Bool
in_order now [] last = leb now last
in_order now ((t, r) ∷ rs) last = let rest = in_order t rs last in leb now t && rest

not_before :
    (now later : ℕ) (d : Option ℕ)
    → leb now later ≡ true
    → past d later ≡ false
    → past d now ≡ false
not_before now later none h e = refl
not_before now later (some d) h e = ground (arith, h, e)

-- As time passes, entries only disappear.
Agrees-later :
    (now later : ℕ) (e : Option Entry) (row : Option Token)
    → leb now later ≡ true
    → Agrees (live now e) row
    → Agrees (live later e) row
Agrees-later now later none row h a = tt
Agrees-later now later (some e) row h a = elim (Bool-cases (expired e later)) [
  | inl gone ↦ rw gone tt
  | inr there ↦ rw there (
      subst (λ b. Agrees (if b then none else some e) row)
        (not_before now later e.expires_at h there) a)
]

IsCoherent-later : (w : World) (t : ℕ) → leb w.clock t ≡ true → IsCoherent w → IsCoherent (at t w)
IsCoherent-later w t h c = record {
  valid = c.valid;
  agrees = λ hash.
      Agrees-later w.clock t (w.kv (auth_cache_key hash)) (token_with hash w.db) h (c.agrees hash);
}

both_true : (a b : Bool) → a && b ≡ true → (a ≡ true) × (b ≡ true)
both_true true b e = (refl, e)
both_true false b e = absurd cc

serve-IsFaithful : (srv : Server) (r : Request) → IsFaithful (serve srv r)
serve-IsFaithful srv r = (serve-IsTraced (λ id. Unit {0}) (λ id. tt) srv r).faithful

-- Let every call of the store and the database work, let the cache agree with the tables at first,
-- and let requests of every kind reach the server one after the other, at times that do not go back:
-- sign-ins, logins, rotations, deletions of accounts and all others. A later request is then
-- authenticated exactly as the lookup of its token in the tables of that moment would, so that what
-- any of those requests revoked is refused, however recently it was cached.
pub serve_all-uncached :
    (srv : Server) (rs : List (ℕ × Request)) (w : World) (last : ℕ) (kinds : List Text)
    (authorization : Text)
    → IsHealthy w
    → IsCoherent w
    → in_order w.clock rs last ≡ true
    → (check_auth srv.env kinds authorization (at last (serve_all srv rs w))).0
      ≡ uncached_check srv.env kinds authorization (serve_all srv rs w).db
unfolding serve_all
serve_all-uncached srv [] w last kinds authorization h c o =
    check_auth-uncached srv.env kinds authorization (at last w) (record { up = h.up })
      (IsCoherent-later w last o c)
serve_all-uncached srv ((t, r) ∷ rs) w last kinds authorization h c o =
    let served : World = (serve srv r (at t w)).1 in
    let faithful = serve-IsFaithful srv r in
    let started : IsHealthy (at t w) = record { up = h.up } in
    let (on_time, rest) = both_true (leb w.clock t) (in_order t rs last) o in
    serve_all-uncached srv rs served last kinds authorization (faithful.healthy (at t w) started)
      (faithful.coherent (at t w) started (IsCoherent-later w t on_time c))
      (rw (faithful.same_clock (at t w)) rest)
