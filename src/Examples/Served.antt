-- ===== src/Examples/Served.antt =====
-- Requests to the concrete server.
use pingclaw_server.Prelude.{
  ℕ, ◌≡◌, ◌≢◌, refl, ◌∙◌, true, none, ◌==◌, ==_iff, List, [], ◌∷◌, codes, arith,
}
use pingclaw_server.Text.{hex_encode, trim_prefix, has_prefix}
use pingclaw_server.Token.{hash_token}
use pingclaw_server.Db.Single.{OneEach}
use pingclaw_server.World.{at, kv_get, kv_set, db_query, db_exec}
use pingclaw_server.Auth.Cache.{uncached_check}
use pingclaw_server.Auth.{Session, admitted, check_auth}
use pingclaw_server.Routes.{kinds_of}
use pingclaw_server.Outgoing.{unreachable}
use pingclaw_server.Requests.{
  Server, Request, me, rotate_api_key, endpoint_of, behind, config, serve,
}
use pingclaw_server.Requests.Tables.{serve_all, serve_all-OneEach}
use pingclaw_server.Requests.Coherence.{serve_all-uncached}
use pingclaw_server.Requests.Isolation.{serve_isolated}
use pingclaw_server.Requests.Isolation.Rows.{SameRows}
use pingclaw_server.Examples
use pingclaw_server.Examples.{
  env, alice, old_authorization, world, world-IsHealthy, world-IsCoherent,
}

-- Nothing outside answers.
abbrev server : Server
server = record {
  env = env;
  cfg = Examples.config;
  oauth = record { client_id = []; client_secret = []; redirect_uri = [] };
  verifier = none;
  locations = record { marshal = λ loc. []; unmarshal = λ t. none };
  dests = record { marshal = λ d. []; unmarshal = λ t. none };
  oauth_codes = record { marshal = λ d. []; unmarshal = λ t. none };
  web = record { template_ok = true; located = λ t. t };
  net = record { lookup_host = λ t. none; parse_ip = λ t. none; wide_lower = λ c. c };
  parse_url = λ t. none;
  send = λ p. unreachable;
  format = record { fixed4 = λ f. []; rounded = λ f. [] };
  scanned = λ t. [];
  age_of = λ t. none;
}

abbrev requests : List (ℕ × Request)
requests = (2000, behind old_authorization (rotate_api_key (1 ∷ []))) ∷ (3000, config) ∷ []

-- The table of the concrete server has one row.
world-OneEach : OneEach world.db.tokens
world-OneEach user_id kind = ground arith

serve_all-OneEach_example : OneEach (serve_all server requests world).db.tokens
serve_all-OneEach_example = serve_all-OneEach server requests world world-OneEach

serve_all-uncached_example :
    (check_auth env [] old_authorization (at 4000 (serve_all server requests world))).0
    ≡ uncached_check env [] old_authorization (serve_all server requests world).db
serve_all-uncached_example =
    serve_all-uncached server requests world 4000 [] old_authorization world-IsHealthy
      world-IsCoherent refl

admitted_alice :
    (check_auth env (kinds_of (endpoint_of me)) old_authorization world).0
    ≡ admitted (record { user_id = alice; kind = codes "api_key" })
unfolding check_auth endpoint_of kinds_of kv_get db_query kv_set db_exec hash_token hex_encode
    trim_prefix has_prefix
admitted_alice = refl

admitted_as :
    (s : Session)
    → (check_auth env (kinds_of (endpoint_of me)) old_authorization world).0 ≡ admitted s
    → s.user_id ≢ codes "usr_b"
admitted_as s e other =
    let owner : alice ≡ s.user_id = cc (admitted_alice, e) in
    let same : (alice == codes "usr_b") ≡ true = (==_iff alice (codes "usr_b")).1 (owner ∙ other) in
    absurd cc

serve_isolated_example :
    SameRows (codes "usr_b") world.db (serve server (behind old_authorization me) world).1.db
serve_isolated_example =
    serve_isolated server old_authorization me (codes "usr_b") world admitted_as
