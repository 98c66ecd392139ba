-- ===== src/SocialAuth.antt =====
-- internal/socialauth: identity tokens of Apple and Google. The JWT library with its key set is a
-- parameter: `parse issuer audience methods token` is jwt.Parse with those options, `none` an
-- error, and the "sub" claim of an accepted token otherwise.
pub mod Audiences
use pingclaw_server.Prelude.{
  ℕ, Bool, true, false, not, Option, none, some, List, [], ◌∷◌, String, Text, codes, if◌then◌else◌,
  ◌==◌,
}

abbrev pub Parse : Type 0
Parse = Text → Text → List Text → Text → Option Text

-- `none` for a key set that could not be initialised.
pub record ProviderVerifier : Type 0 where
  pub audiences : List Text
  pub jwks : Option Parse

-- What Verify comes to: a subject, an error, or a nil dereference.
pub data Verified : Type 0 where
  subject : Text → Verified
  invalid : Verified
  panicked : Verified

-- The variables `token` and `parseErr` of the loop: nothing parsed yet, the error, or the token.
pub data Attempt : Type 0 where
  untried parse_error : Attempt
  parsed : Text → Attempt

abbrev pub apple_issuer : Text
apple_issuer = codes "https://appleid.apple.com"

abbrev pub apple_methods : List Text
apple_methods = codes "RS256" ∷ codes "ES256" ∷ []

unfoldable pub google_issuers : List Text
google_issuers = codes "https://accounts.google.com" ∷ codes "accounts.google.com" ∷ []

abbrev pub google_methods : List Text
google_methods = codes "RS256" ∷ []

-- `for _, aud := range a.audiences`; the loop is left at the first token that parses.
pub apple_loop : Parse → Text → List Text → Attempt → Attempt
apple_loop parse token [] last = last
apple_loop parse token (aud ∷ auds) last = elim (aud == []) [
  | true ↦ apple_loop parse token auds last
  | false ↦ elim (parse apple_issuer aud apple_methods token) [
    | some sub ↦ parsed sub
    | none ↦ apple_loop parse token auds parse_error
  ]
]

-- `for _, iss := range googleIssuers`
pub google_issuer_loop : Parse → Text → Text → List Text → Attempt → Attempt
google_issuer_loop parse token aud [] last = last
google_issuer_loop parse token aud (iss ∷ isss) last = elim (parse iss aud google_methods token) [
  | some sub ↦ parsed sub
  | none ↦ google_issuer_loop parse token aud isss parse_error
]

pub google_loop : Parse → Text → List Text → Attempt → Attempt
google_loop parse token [] last = last
google_loop parse token (aud ∷ auds) last = elim (aud == []) [
  | true ↦ google_loop parse token auds last
  | false ↦ elim (google_issuer_loop parse token aud google_issuers last) [
    | parsed sub ↦ parsed sub
    | parse_error ↦ google_loop parse token auds parse_error
    | untried ↦ google_loop parse token auds untried
  ]
]

-- What follows the loops: `token.Claims` of a nil token panics; an empty subject is an error.
abbrev pub conclude : Attempt → Verified
conclude untried = panicked
conclude parse_error = invalid
conclude (parsed []) = invalid
conclude (parsed (c ∷ sub)) = subject (c ∷ sub)

unfoldable pub verify_apple : ProviderVerifier → Text → Verified
unfolding apple_loop
verify_apple v token = elim v.jwks [
  | none ↦ invalid
  | some parse ↦ conclude (apple_loop parse token v.audiences untried)
]

unfoldable pub verify_google : ProviderVerifier → Text → Verified
unfolding google_loop google_issuer_loop
verify_google v token = elim v.jwks [
  | none ↦ invalid
  | some parse ↦ conclude (google_loop parse token v.audiences untried)
]

pub record Verifier : Type 0 where
  pub apple : ProviderVerifier
  pub google : ProviderVerifier

abbrev pub provider_apple : Text
provider_apple = codes "apple"

abbrev pub provider_google : Text
provider_google = codes "google"

unfoldable pub verify : Verifier → Text → Text → Verified
verify v provider token =
    if provider == provider_apple
    then verify_apple v.apple token
    else if provider == provider_google
    then verify_google v.google token
    else invalid
