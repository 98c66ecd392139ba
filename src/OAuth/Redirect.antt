-- ===== src/OAuth/Redirect.antt =====
-- The redirect of OAuthAuthorize of internal/pingclaw/oauth.go.
use pingclaw_server.Prelude.{
  ℕ, ◌≡◌, ◌≢◌, refl, Option, none, some, List, [], ◌∷◌, arith, Text, codes, ◌++◌, any, nat_beq,
  if◌then◌else◌, ◌==◌, ==_iff, Bool-cases, Option-cases, ◌⊎◌, inl, inr,
}
use pingclaw_server.Kv.{Reply, found, key_not_found, failed}
use pingclaw_server.World.{World}
use pingclaw_server.Http.{Response}
use pingclaw_server.Token.{Env, generate_web_code}
use pingclaw_server.OAuth.{
  Web, OAuthConfig, CodeJson, Query, Form, oauth_authorize, query_refusal, form_refusal,
  after_query, submit_form, submit_code, use_web_code,
}

-- A redirect of the endpoint goes to the URI of the form, with a fresh code and the form's state, as
-- a query or at the end of the one that is there.
abbrev Redirects : Web → List ℕ → Form → Response → Type 0
Redirects web bytes f r =
    r.headers
    ≡ (
      codes "Location",
      web.located (
          f.redirect_uri
          ++ ((if any (λ c. nat_beq c b'?') f.redirect_uri then codes "&" else codes "?")
              ++ (codes "code=" ++ (generate_web_code bytes ++ (codes "&state=" ++ f.state))))),
    )
      ∷ []

use_web_code-Redirects :
    (cj : CodeJson) (web : Web) (bytes : List ℕ) (f : Form) (r : Reply Text) (w : World)
    → (use_web_code cj web bytes f r w).0.status ≡ 302
    → Redirects web bytes f (use_web_code cj web bytes f r w).0
unfolding use_web_code
use_web_code-Redirects cj web bytes f (found []) w e = ground arith
use_web_code-Redirects cj web bytes f (found (c ∷ user)) w e = ground arith
use_web_code-Redirects cj web bytes f key_not_found w e = ground arith
use_web_code-Redirects cj web bytes f failed w e = ground arith

submit_code-Redirects :
    (cj : CodeJson) (web : Web) (bytes : List ℕ) (f : Form) (code : Text) (w : World)
    → (submit_code cj web bytes f code w).0.status ≡ 302
    → Redirects web bytes f (submit_code cj web bytes f code w).0
unfolding submit_code
submit_code-Redirects cj web bytes f [] w e = ground arith
submit_code-Redirects cj web bytes f (c ∷ code) w e = use_web_code-Redirects cj web bytes f _ _ e

refused_query_status :
    (cfg : OAuthConfig) (q : Query) (x : Response) → query_refusal cfg q ≡ some x → x.status ≢ 302
refused_query_status cfg q x e = ground arith

refused_form_status :
    (cfg : OAuthConfig) (f : Form) (x : Response) → form_refusal cfg f ≡ some x → x.status ≢ 302
refused_form_status cfg f x e = ground arith

form_passed :
    (cfg : OAuthConfig) (f : Form)
    → form_refusal cfg f ≡ none
    → (f.client_id ≡ cfg.client_id)
      × ((cfg.redirect_uri ≡ []) ⊎ (f.redirect_uri ≡ cfg.redirect_uri))
form_passed cfg f e = (ground (arith, ==_iff f.client_id cfg.client_id), pinned)
  where
    pinned : (cfg.redirect_uri ≡ []) ⊎ (f.redirect_uri ≡ cfg.redirect_uri)
    pinned = elim (Bool-cases (cfg.redirect_uri == [])) [
      | inl open_uri ↦ inl ((==_iff cfg.redirect_uri []).0 open_uri)
      | inr named ↦ inr (ground (arith, ==_iff f.redirect_uri cfg.redirect_uri))
    ]

abbrev Lands : Web → OAuthConfig → List ℕ → Form → Response → Type 0
Lands web cfg bytes f r =
    Redirects web bytes f r
    × (f.client_id ≡ cfg.client_id)
    × ((cfg.redirect_uri ≡ []) ⊎ (f.redirect_uri ≡ cfg.redirect_uri))

submitted-Redirects :
    (env : Env) (cfg : OAuthConfig) (cj : CodeJson) (web : Web) (bytes : List ℕ) (f : Form)
    (r : Option Response) (w : World)
    → form_refusal cfg f ≡ r
    → (submit_form env cj web bytes f r w).0.status ≡ 302
    → Lands web cfg bytes f (submit_form env cj web bytes f r w).0
unfolding submit_form
submitted-Redirects env cfg cj web bytes f (some x) w p e = absurd (refused_form_status cfg f x p e)
submitted-Redirects env cfg cj web bytes f none w p e =
    (submit_code-Redirects cj web bytes f _ w e, (form_passed cfg f p).0, (form_passed cfg f p).1)

asked-Redirects :
    (env : Env) (cfg : OAuthConfig) (cj : CodeJson) (web : Web) (bytes : List ℕ) (q : Query)
    (g : Option Form) (w : World)
    → (after_query env cfg cj web bytes q g none w).0.status ≡ 302
    → (f : Form) × (g ≡ some f)
      × Redirects web bytes f (after_query env cfg cj web bytes q g none w).0
      × (f.client_id ≡ cfg.client_id)
      × ((cfg.redirect_uri ≡ []) ⊎ (f.redirect_uri ≡ cfg.redirect_uri))
unfolding after_query
asked-Redirects env cfg cj web bytes q none w e = absurd (ground arith)
asked-Redirects env cfg cj web bytes q (some f) w e =
    let (lands, client, uri) =
      submitted-Redirects env cfg cj web bytes f (form_refusal cfg f) w refl e in
    (f, refl, lands, client, uri)

-- Under any schedule of failures, the endpoint redirects only a submitted form that names the
-- server's client, and the only header that it sets is the Location that http.Redirect makes of
-- this target: the form's redirect URI, then "&" if that has a "?" in it and "?" if not, then "code="
-- with the freshly generated code and "&state=" with the form's state. If the configuration names a
-- redirect URI, the form's is that one.
pub oauth_authorize_redirects :
    (env : Env) (cfg : OAuthConfig) (cj : CodeJson) (web : Web) (bytes : List ℕ) (q : Query)
    (form : Option Form) (w : World)
    → (oauth_authorize env cfg cj web bytes q form w).0.status ≡ 302
    → (f : Form) × (form ≡ some f)
      × ((oauth_authorize env cfg cj web bytes q form w).0.headers
          ≡ (
            codes "Location",
            web.located (
                f.redirect_uri
                ++ ((if any (λ c. nat_beq c b'?') f.redirect_uri then codes "&" else codes "?")
                    ++ (codes "code="
                        ++ (generate_web_code bytes ++ (codes "&state=" ++ f.state))))),
          )
            ∷ [])
      × (f.client_id ≡ cfg.client_id)
      × ((cfg.redirect_uri ≡ []) ⊎ (f.redirect_uri ≡ cfg.redirect_uri))
unfolding oauth_authorize
oauth_authorize_redirects env cfg cj web bytes q form w e =
    elim (Option-cases (query_refusal cfg q)) [
      | inr (x, refused) ↦
          absurd (refused_query_status cfg q x refused (unfold after_query in (rw refused at e)))
      | inl passed ↦ rw passed (asked-Redirects env cfg cj web bytes q form w (rw passed at e))
    ]
