-- ===== src/Requests/Tables.antt =====
-- The tokens under any sequence of requests to the server of internal/pingclaw.
use pingclaw_server.Prelude.{ℕ, List, [], ◌∷◌}
use pingclaw_server.Db.Single.{OneEach}
use pingclaw_server.World.{World, at}
use pingclaw_server.Requests.{Server, Request, serve}
use pingclaw_server.Requests.Effects.{serve-IsTraced}

-- Requests at given times, one after the other.
unfoldable pub serve_all : Server → List (ℕ × Request) → World → World
serve_all srv [] w = w
serve_all srv ((t, r) ∷ rs) w = serve_all srv rs (serve srv r (at t w)).1

-- Whatever requests reach the server, in whatever order and whichever calls of the store and the
-- database fail on the way: if no user has two tokens of a kind before, none has after, although the
-- tables would allow it.
pub serve_all-OneEach :
    (srv : Server) (rs : List (ℕ × Request)) (w : World)
    → OneEach w.db.tokens
    → OneEach (serve_all srv rs w).db.tokens
unfolding serve_all
serve_all-OneEach srv [] w o = o
serve_all-OneEach srv ((t, r) ∷ rs) w o =
    let served = (serve-IsTraced (λ id. Unit {0}) (λ id. tt) srv r).faithful in
    serve_all-OneEach srv rs (serve srv r (at t w)).1 (served.one_each (at t w) o)
