-- ===== src/OAuth/Traced.antt =====
-- The statements and the store calls of internal/pingclaw/oauth.go.
use pingclaw_server.Prelude.{ℕ, Option, none, some, List, [], ◌∷◌, Text}
use pingclaw_server.Kv.{Reply, found, key_not_found, failed}
use pingclaw_server.Auth.Traced.{IsTraced, traced_rules}
use pingclaw_server.Http.{Response}
use pingclaw_server.Token.{Env}
use pingclaw_server.Auth.Traced.Tokens.{rotate_token-IsTraced}
use pingclaw_server.Account.{normal_code}
use pingclaw_server.OAuth.{
  Web, OAuthConfig, CodeData, CodeJson, Query, Form, TokenRequest, issue_code, use_web_code,
  submit_code, submit_form, after_query, oauth_authorize, query_refusal, form_refusal, grant,
  exchange, redeem_code, oauth_token, token_refusal,
}

module _ (Who : Text → Type 0) where
  module _ (cj : CodeJson) (web : Web) (bytes : List ℕ) where
    use_web_code-IsTraced :
        (f : Form) (r : Reply Text) → IsTraced Who (use_web_code cj web bytes f r)
    unfolding use_web_code issue_code
    use_web_code-IsTraced f (found []) = search traced_rules
    use_web_code-IsTraced f (found (c ∷ user)) = search traced_rules depth 6
    use_web_code-IsTraced f key_not_found = search traced_rules
    use_web_code-IsTraced f failed = search traced_rules

    submit_code-IsTraced : (f : Form) (code : Text) → IsTraced Who (submit_code cj web bytes f code)
    unfolding submit_code
    submit_code-IsTraced f [] = search traced_rules
    submit_code-IsTraced f (c ∷ code) = search (traced_rules, use_web_code-IsTraced) depth 6

    submit_form-IsTraced :
        (env : Env) (f : Form) (r : Option Response)
        → IsTraced Who (submit_form env cj web bytes f r)
    unfolding submit_form
    submit_form-IsTraced env f (some r) = search traced_rules
    submit_form-IsTraced env f none = submit_code-IsTraced f (normal_code env f.code)

    after_query-IsTraced :
        (env : Env) (cfg : OAuthConfig) (q : Query) (form : Option Form) (r : Option Response)
        → IsTraced Who (after_query env cfg cj web bytes q form r)
    unfolding after_query
    after_query-IsTraced env cfg q form (some r) = search traced_rules
    after_query-IsTraced env cfg q none none = search traced_rules
    after_query-IsTraced env cfg q (some f) none = submit_form-IsTraced env f (form_refusal cfg f)

    pub oauth_authorize-IsTraced :
        (env : Env) (cfg : OAuthConfig) (q : Query) (form : Option Form)
        → IsTraced Who (oauth_authorize env cfg cj web bytes q form)
    unfolding oauth_authorize
    oauth_authorize-IsTraced env cfg q form =
        after_query-IsTraced env cfg q form (query_refusal cfg q)

  module _ (everyone : (id : Text) → Who id) (env : Env) (bytes : List ℕ) where
    grant-IsTraced :
        (r : TokenRequest) (stored : Option CodeData) → IsTraced Who (grant env bytes r stored)
    unfolding grant
    grant-IsTraced r none = search traced_rules
    grant-IsTraced r (some stored) = search (traced_rules, rotate_token-IsTraced, everyone) depth 8

    exchange-IsTraced :
        (cj : CodeJson) (r : TokenRequest) (raw : Reply Text)
        → IsTraced Who (exchange env cj bytes r raw)
    unfolding exchange
    exchange-IsTraced cj r (found []) = search traced_rules
    exchange-IsTraced cj r (found (c ∷ raw)) = grant-IsTraced r (cj.unmarshal (c ∷ raw))
    exchange-IsTraced cj r key_not_found = search traced_rules
    exchange-IsTraced cj r failed = search traced_rules

    redeem_code-IsTraced :
        (cj : CodeJson) (r : TokenRequest) (x : Option Response)
        → IsTraced Who (redeem_code env cj bytes r x)
    unfolding redeem_code
    redeem_code-IsTraced cj r (some x) = search traced_rules
    redeem_code-IsTraced cj r none = search (traced_rules, exchange-IsTraced) depth 6

    pub oauth_token-IsTraced :
        (cfg : OAuthConfig) (cj : CodeJson) (r : Option TokenRequest)
        → IsTraced Who (oauth_token env cfg cj bytes r)
    unfolding oauth_token
    oauth_token-IsTraced cfg cj none = search traced_rules
    oauth_token-IsTraced cfg cj (some r) = redeem_code-IsTraced cj r (token_refusal cfg r)
