-- ===== src/OAuth/Codes.antt =====
-- Authorization codes at OAuthToken of internal/pingclaw/oauth.go.
use pingclaw_server.Prelude.{
  ℕ, ◌≡◌, ◌≢◌, ◌∙◌, refl, true, Option, none, some, List, [], ◌∷◌, arith, Text, codes, ==_iff,
  Option-cases, inl, inr,
}
use pingclaw_server.Kv.{Entry, Reply, found, key_not_found, failed, live}
use pingclaw_server.World.{World, kv_get_del}
use pingclaw_server.World.Laws.{IsHealthy}
use pingclaw_server.Http.{Response}
use pingclaw_server.Token.{Env}
use pingclaw_server.Auth.Rotation.{rotate_token-frame}
use pingclaw_server.OAuth.{
  OAuthConfig, CodeData, CodeJson, TokenRequest, oauth_code_key, oauth_token, token_refusal,
  redeem_code, exchange, grant,
}

grant-frame :
    (env : Env) (bytes : List ℕ) (r : TokenRequest) (d : Option CodeData) (w : World) (code : Text)
    → (grant env bytes r d w).1.kv (oauth_code_key code) ≡ w.kv (oauth_code_key code)
unfolding grant
grant-frame env bytes r none w code = refl
grant-frame env bytes r (some d) w code = ground (
  arith,
  rotate_token-frame env bytes d.user_id (codes "api_key") (codes "ak_") w (oauth_code_key code)
      (λ h. refl),
)

exchange-frame :
    (env : Env) (cj : CodeJson) (bytes : List ℕ) (r : TokenRequest) (raw : Reply Text) (w : World)
    (code : Text)
    → (exchange env cj bytes r raw w).1.kv (oauth_code_key code) ≡ w.kv (oauth_code_key code)
unfolding exchange
exchange-frame env cj bytes r (found []) w code = refl
exchange-frame env cj bytes r (found (c ∷ raw)) w code =
    grant-frame env bytes r (cj.unmarshal (c ∷ raw)) w code
exchange-frame env cj bytes r key_not_found w code = refl
exchange-frame env cj bytes r failed w code = refl

refusal_status :
    (cfg : OAuthConfig) (r : TokenRequest) (x : Response)
    → token_refusal cfg r ≡ some x
    → x.status ≢ 200
refusal_status cfg r x e = ground arith

redeem_consumes :
    (env : Env) (cj : CodeJson) (bytes : List ℕ) (r : TokenRequest) (x : Option Response)
    (w : World)
    → w.works 0 ≡ true
    → ((y : Response) → x ≡ some y → y.status ≢ 200)
    → (redeem_code env cj bytes r x w).0.status ≡ 200
    → (redeem_code env cj bytes r x w).1.kv (oauth_code_key r.code) ≡ none
unfolding redeem_code kv_get_del
redeem_consumes env cj bytes r (some y) w up bad e = absurd (bad y refl e)
redeem_consumes env cj bytes r none w up bad e =
    exchange-frame env cj bytes r (kv_get_del (oauth_code_key r.code) w).0
      (kv_get_del (oauth_code_key r.code) w).1 r.code
    ∙ ground (arith, ==_iff (oauth_code_key r.code) (oauth_code_key r.code))

redeem_absent :
    (env : Env) (cj : CodeJson) (bytes : List ℕ) (r : TokenRequest) (x : Option Response)
    (w : World)
    → w.kv (oauth_code_key r.code) ≡ none
    → ((y : Response) → x ≡ some y → y.status ≢ 200)
    → (redeem_code env cj bytes r x w).0.status ≢ 200
unfolding redeem_code exchange kv_get_del
redeem_absent env cj bytes r (some y) w e bad s = bad y refl s
redeem_absent env cj bytes r none w e bad s = ground arith

-- A code is exchanged once: when a request was answered with an access token, while every call
-- works, the next request with the same code is not.
pub oauth_token_once :
    (env : Env) (cfg : OAuthConfig) (cj : CodeJson) (bytes bytes' : List ℕ) (r r' : TokenRequest)
    (w : World)
    → IsHealthy w
    → r.code ≡ r'.code
    → (oauth_token env cfg cj bytes (some r) w).0.status ≡ 200
    → (oauth_token env cfg cj bytes' (some r') (oauth_token env cfg cj bytes (some r) w).1).0.status
      ≢ 200
unfolding oauth_token
oauth_token_once env cfg cj bytes bytes' r r' w u same e =
    redeem_absent env cj bytes' r' (token_refusal cfg r') _
      (rw (← same)
        (redeem_consumes env cj bytes r (token_refusal cfg r) w (u.up 0) (refusal_status cfg r) e))
      (refusal_status cfg r')

-- The data that a grant accepts.
abbrev Accepts : TokenRequest → Option CodeData → Type 0
Accepts r d =
    (stored : CodeData) × (d ≡ some stored)
    × (stored.client_id ≡ r.client_id)
    × (stored.redirect_uri ≡ r.redirect_uri)

grant-Accepts :
    (env : Env) (bytes : List ℕ) (r : TokenRequest) (d : Option CodeData) (w : World)
    → (grant env bytes r d w).0.status ≡ 200
    → Accepts r d
unfolding grant
grant-Accepts env bytes r none w e = absurd (omega arith)
grant-Accepts env bytes r (some d) w e = (
  d,
  refl,
  ground (arith, ==_iff d.client_id r.client_id),
  ground (arith, ==_iff d.redirect_uri r.redirect_uri),
)

-- What the store answered, for an exchange that succeeds.
exchange-Accepts :
    (env : Env) (cj : CodeJson) (bytes : List ℕ) (r : TokenRequest) (raw : Reply Text) (w : World)
    → (exchange env cj bytes r raw w).0.status ≡ 200
    → (v : Text) × (raw ≡ found v) × Accepts r (cj.unmarshal v)
unfolding exchange
exchange-Accepts env cj bytes r (found []) w e = absurd (omega arith)
exchange-Accepts env cj bytes r (found (c ∷ v)) w e =
    (c ∷ v, refl, grant-Accepts env bytes r (cj.unmarshal (c ∷ v)) w e)
exchange-Accepts env cj bytes r key_not_found w e = absurd (omega arith)
exchange-Accepts env cj bytes r failed w e = absurd (omega arith)

live_value :
    (k v : Text) (w : World)
    → (kv_get_del k w).0 ≡ found v
    → (e : Entry) × (live w.clock (w.kv k) ≡ some e) × (e.value ≡ v)
unfolding kv_get_del
live_value k v w h = elim (Option-cases (live w.clock (w.kv k))) [
  | inl absent ↦ absurd (ground arith)
  | inr (e, there) ↦ (e, there, ground arith)
]

redeem-Accepts :
    (env : Env) (cj : CodeJson) (bytes : List ℕ) (r : TokenRequest) (w : World)
    → (redeem_code env cj bytes r none w).0.status ≡ 200
    → (v : Text) × ((kv_get_del (oauth_code_key r.code) w).0 ≡ found v) × Accepts r (cj.unmarshal v)
unfolding redeem_code
redeem-Accepts env cj bytes r w e = exchange-Accepts env cj bytes r _ _ e

credentials :
    (cfg : OAuthConfig) (r : TokenRequest)
    → token_refusal cfg r ≡ none
    → (r.client_id ≡ cfg.client_id) × (r.client_secret ≡ cfg.client_secret)
credentials cfg r e = (
  ground (arith, ==_iff r.client_id cfg.client_id),
  ground (arith, ==_iff r.client_secret cfg.client_secret),
)

-- What an answered exchange rests on: a live code, whose data names the server's client and the
-- redirect URI of the request.
pub record IsEntitled (cfg : OAuthConfig) (cj : CodeJson) (r : TokenRequest) (w : World)
    : Type 0 where
  pub entry : Entry
  pub stored : CodeData
  pub is_live : live w.clock (w.kv (oauth_code_key r.code)) ≡ some entry
  pub decoded : cj.unmarshal entry.value ≡ some stored
  pub same_client : stored.client_id ≡ cfg.client_id
  pub same_redirect : stored.redirect_uri ≡ r.redirect_uri
  pub secret : r.client_secret ≡ cfg.client_secret

-- Under any schedule of failures, an access token is issued only against a live code that was
-- issued for the server's client and the redirect URI of the request, and the client's secret.
pub oauth_token-IsEntitled :
    (env : Env) (cfg : OAuthConfig) (cj : CodeJson) (bytes : List ℕ) (r : TokenRequest) (w : World)
    → (oauth_token env cfg cj bytes (some r) w).0.status ≡ 200
    → IsEntitled cfg cj r w
unfolding oauth_token
oauth_token-IsEntitled env cfg cj bytes r w e = elim (Option-cases (token_refusal cfg r)) [
  | inl passed ↦ entitled passed (rw passed at e)
  | inr (x, refused) ↦ absurd (refusal_status cfg r x refused (rw refused at e))
]
  where
    entitled :
        token_refusal cfg r ≡ none
        → (redeem_code env cj bytes r none w).0.status ≡ 200
        → IsEntitled cfg cj r w
    entitled passed e =
        let (v, answer, accepted) = redeem-Accepts env cj bytes r w e in
        let (stored, decoded, client, redirect) = accepted in
        let (entry, there, same) = live_value (oauth_code_key r.code) v w answer in
        let (id, secret) = credentials cfg r passed in
        record {
          entry = entry;
          stored = stored;
          is_live = there;
          decoded = rw same decoded;
          same_client = client ∙ id;
          same_redirect = redirect;
          secret = secret;
        }
