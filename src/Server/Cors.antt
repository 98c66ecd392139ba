-- ===== src/Server/Cors.antt =====
-- withCORS of cmd/pingclaw-server/main.go, around every handler of the server.
use pingclaw_server.Prelude.{◌≡◌, refl, List, [], ◌∷◌, ◌++◌, Text, codes, if◌then◌else◌, ◌==◌}
use pingclaw_server.World.{World, M, pure, ◌>>=◌}
use pingclaw_server.Http.{Response, no_body}

abbrev pub cors_headers : List (Text × Text)
cors_headers =
    (codes "Access-Control-Allow-Origin", codes "*")
    ∷ (codes "Access-Control-Allow-Methods", codes "GET, POST, PUT, DELETE, OPTIONS")
    ∷ (codes "Access-Control-Allow-Headers", codes "Content-Type, Authorization, Mcp-Session-Id")
    ∷ (codes "Access-Control-Expose-Headers", codes "Mcp-Session-Id")
    ∷ []

abbrev pub opened : Response → Response
opened r = record r { headers = cors_headers ++ r.headers }

-- http.StatusNoContent
abbrev pub no_content : Response
no_content = record { status = 204; headers = []; body = no_body }

-- A pre-flight is answered here and does not reach the handler.
unfoldable pub with_cors : Text → M Response → M Response
with_cors method next w =
    let rest = (do r ← next; pure (opened r)) in
    if method == codes "OPTIONS" then (opened no_content, w) else rest w

preflight :
    (next : M Response) (w : World) → with_cors (codes "OPTIONS") next w ≡ (opened no_content, w)
unfolding with_cors
preflight next w = refl
