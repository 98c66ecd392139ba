-- ===== src/Lib.antt =====
-- PingClaw server: a small Go service that keeps the last location of a user's phone for a day and
-- gives it to the user's own agents. A user signs in with an identity token of Apple or Google, or
-- with a short web code that another session shows, and holds bearer tokens of three kinds. Most
-- requests meet the same middleware, which keeps a cache of authenticated tokens in a key-value
-- store in front of the database. OAuth hands API keys to a configured client. Webhooks and an
-- OpenClaw gateway receive locations, over connections that must not reach internal addresses.
--
-- The modules, and the code that each is about:
--   Prelude     names of the libraries, signed integers, Boolean tests, lists
--   Text        the functions of Go's strings, strconv and encoding/hex that the server uses
--   Kv          the KVStore interface (internal/kvstore/kvstore.go) as an abstract store: a map from
--               keys to values with deadlines. Kv.Calls is that store as a machine of calls
--   Memstore    internal/kvstore/memstore.go: MemStore, its cleanup goroutine included
--   RedisStore  internal/kvstore/redis.go over a parameter for the Redis client
--   Db          the tables and constraints of applySchema (cmd/pingclaw-server/main.go) and the SQL
--               statements of the handlers
--   World       what a handler works on, and the calls of the store and the database. World.Log is the
--               sequence of statements that a handler sends, and the users that they are about
--   RateLimit   internal/ratelimit/limiter.go: Allow, its window and its Retry-After
--   Http        responses, and writeJSON, writeError, http.Error. Http.Reading reads the JSON as a client
--   Token       GenerateToken, hashToken and generateWebCode (internal/pingclaw/handlers.go, as all
--               of the following that name no file)
--   Auth        requireAuthKinds and rotateToken. Auth.Threads has them as threads that interleave call
--               by call. Auth.Cache states the agreement of the cache with the tables, Auth.Faithful
--               and Auth.Traced are about programs that keep it, and a component with handlers has a
--               child Traced that shows them to be such programs
--   Account     WebCode, WebLogin, GetMe, RotatePairingToken, RotateAPIKey, DeleteAccount
--   ClientIp    clientIP
--   SocialAuth  internal/socialauth: the verifiers of Apple and Google
--   SignIn      SocialAuth and findOrCreateSocialUser
--   Integration recordIntegrationActivity, getIntegrationActivity, GetIntegrationStatus
--   PrivateIp   isPrivateIP, isPrivateHost and the DialContext of safeHTTPClient
--   Webhook     lookupWebhook, PutWebhook, GetWebhook, DeleteWebhook
--   OAuth       internal/pingclaw/oauth.go: OAuthAuthorize, OAuthToken, serveOAuthPage
--   OpenClaw    lookupOpenClawDest, RegisterOpenClawDest, GetOpenClawDest, DeleteOpenClawDest,
--               TestOpenClawDest, deliverToOpenClaw, testOpenClawDelivery
--   Location    readLocation, writeLocation, PostLocation, GetLocation
--   Mcp         internal/pingclaw/mcp.go: mcpAuthMiddleware and the tool get_my_location
--   Routes      the kinds of token that RegisterRoutes demands of each endpoint, and GetConfig
--   Export      GetMyData
--   Requests    RegisterRoutes as one function that serves a request of any kind, and sequences of
--               requests: the tokens (Tables), the cache (Coherence), the users (Isolation)
--   Outgoing    TestWebhook, SendOpenClawLocation, formatLocationText; PutWebhook before a TestWebhook
--   LocalMode   cmd/pingclaw-server/main.go: bootstrapLocalUser, rotateLocalToken
--   Server      cmd/pingclaw-server/main.go: rewriteQuery (Queries), the waiting loops of initDB and
--               initRedis (Wait), the reading of the environment (Settings), withCORS (Cors), lanIP and
--               printLocalURLs (Address)
--   Pages       internal/mdpage/mdpage.go: the three handlers
--   Examples    one concrete server, and the theorems at concrete inputs
--
-- How the code is modelled. A handler is a function from a world to a response and a world. A world
-- is the clock, the store, the database and a schedule that says of each call of either, in turn,
-- whether it works; a call that fails changes nothing and returns an error, so that a statement for
-- every world holds for every pattern of failures. A world is healthy when every call works. The
-- handlers use the abstract store, which Memstore implements; RedisStore passes its calls on to Redis.
-- A table is a list of rows, a statement a function that refuses what a constraint forbids; a
-- transaction that does not commit leaves the tables as they were. A text is the list of its code
-- points. Requests run one after the other, and a request reads the clock as one instant; a theorem
-- about several requests names the time of each where it matters. Only in Auth.Threads do requests
-- interleave: there a state is the world with the point that each thread has reached, and a step is
-- one call of one thread, or time that passes.
--
-- What the server takes from elsewhere is an argument: random bytes and identifiers, SHA-256, the
-- decoding of a request's body, query or form, the JSON codecs of cached values, the JWT library
-- with its key sets, url.Parse, the resolver, net.ParseIP, the answers of a gateway or a webhook,
-- fmt's formatting of floats, the Location that http.Redirect writes for a target, and Unicode case
-- mapping beyond ASCII. A float64 is its bit pattern; the seconds of Retry-After, which Go computes
-- through a float64, are taken as exact. Logging is left out. Counters are int64 with the wrap-around of Go's addition, and are kept as
-- decimal text that ParseInt reads back with its clamping.
--
-- One definition runs on fuel: the waiting loops run for at most 30 rounds, which are enough because
-- each takes a second at least and the patience is 30 seconds. All other loops are structural
-- recursion, and printing a number recurses on a proof that its argument gets smaller.
--
-- Not modelled: when the goroutine of a delivery runs, and fireUserWebhook, which posts what
-- PostLocation hands it and only logs the outcome; the opening of connections and the listening on a
-- port, the limit on the size of a body, the matching of paths by the mux, and the web client. The
-- JWT, JSON and Markdown libraries are parameters, as said above.
pub mod Prelude
pub mod Text
pub mod Kv
pub mod Memstore
pub mod RedisStore
pub mod Db
pub mod World
pub mod RateLimit
pub mod Export
pub mod Http
pub mod Token
pub mod Auth
pub mod ClientIp
pub mod SocialAuth
pub mod Account
pub mod SignIn
pub mod Integration
pub mod PrivateIp
pub mod Webhook
pub mod OAuth
pub mod OpenClaw
pub mod Location
pub mod Mcp
pub mod Routes
pub mod Outgoing
pub mod LocalMode
pub mod Requests
pub mod Server
pub mod Pages
pub mod Examples
