-- ===== src/SocialAuth/Audiences.antt =====
-- The loops over audiences and issuers of internal/socialauth/apple.go and google.go.
use pingclaw_server.Prelude.{
  ◌≡◌, ◌≢◌, refl, Bool, true, false, some, List, [], ◌∷◌, arith, Text, any, all, ◌==◌, ==_iff,
  Bool-cases, Option-cases, inl, inr,
}
use pingclaw_server.SocialAuth.{
  Parse, subject, panicked, Attempt, untried, parse_error, parsed, apple_issuer, apple_methods,
  google_issuers, google_methods, apple_loop, google_issuer_loop, google_loop, conclude,
  verify_apple, verify_google,
}

-- A configured audience for which the provider's token was accepted.
abbrev pub AcceptedFor : Parse → List Text → List Text → List Text → Text → Text → Type 0
AcceptedFor parse issuers methods auds token sub =
    (iss : Text) × (aud : Text) × (any (λ i. i == iss) issuers ≡ true)
    × (any (λ a. a == aud) auds ≡ true)
    × (aud ≢ [])
    × (parse iss aud methods token ≡ some sub)

later_audience :
    (parse : Parse) (issuers methods auds : List Text) (aud token sub : Text)
    → AcceptedFor parse issuers methods auds token sub
    → AcceptedFor parse issuers methods (aud ∷ auds) token sub
later_audience parse issuers methods auds aud token sub (iss, a, p, q, ne, e) =
    (iss, a, p, ground arith, ne, e)

apple_loop_sound :
    (parse : Parse) (token sub : Text) (auds : List Text) (last : Attempt)
    → last ≢ parsed sub
    → apple_loop parse token auds last ≡ parsed sub
    → AcceptedFor parse (apple_issuer ∷ []) apple_methods auds token sub
unfolding apple_loop
apple_loop_sound parse token sub [] last fresh e = absurd (fresh e)
apple_loop_sound parse token sub (aud ∷ auds) last fresh e = elim (Bool-cases (aud == [])) [
  | inl empty ↦
      later_audience parse (apple_issuer ∷ []) apple_methods auds aud token sub
        (apple_loop_sound parse token sub auds last fresh (ground arith))
  | inr named ↦ elim (Option-cases (parse apple_issuer aud apple_methods token)) [
    | inl refused ↦
        later_audience parse (apple_issuer ∷ []) apple_methods auds aud token sub
          (apple_loop_sound parse token sub auds parse_error (λ p. cc) (ground arith))
    | inr (s, accepted) ↦
        (apple_issuer, aud, refl, ground (arith, ==_iff aud aud), λ p. ground arith, ground arith)
  ]
]

google_issuer_loop_sound :
    (parse : Parse) (token aud sub : Text) (isss : List Text) (last : Attempt)
    → last ≢ parsed sub
    → google_issuer_loop parse token aud isss last ≡ parsed sub
    → (iss : Text) × (any (λ i. i == iss) isss ≡ true)
      × (parse iss aud google_methods token ≡ some sub)
unfolding google_issuer_loop
google_issuer_loop_sound parse token aud sub [] last fresh e = absurd (fresh e)
google_issuer_loop_sound parse token aud sub (iss ∷ isss) last fresh e =
    elim (Option-cases (parse iss aud google_methods token)) [
      | inl refused ↦
          let (i, p, q) =
            google_issuer_loop_sound parse token aud sub isss parse_error (λ p. cc)
              (ground arith) in
          (i, ground arith, q)
      | inr (s, accepted) ↦ (iss, ground (arith, ==_iff iss iss), ground arith)
    ]

module _ (parse : Parse) (token sub aud : Text) (auds : List Text) (last : Attempt) where
  google_head_sound :
      (r : Attempt)
      → ((l : Attempt)
          → l ≢ parsed sub
          → google_loop parse token auds l ≡ parsed sub
          → AcceptedFor parse google_issuers google_methods auds token sub)
      → last ≢ parsed sub
      → (aud == []) ≡ false
      → google_issuer_loop parse token aud google_issuers last ≡ r
      → google_loop parse token (aud ∷ auds) last ≡ parsed sub
      → AcceptedFor parse google_issuers google_methods (aud ∷ auds) token sub
  unfolding google_loop
  google_head_sound untried ih fresh named p e =
      later_audience parse google_issuers google_methods auds aud token sub
        (ih untried (λ q. cc) (ground arith))
  google_head_sound parse_error ih fresh named p e =
      later_audience parse google_issuers google_methods auds aud token sub
        (ih parse_error (λ q. cc) (ground arith))
  google_head_sound (parsed s) ih fresh named p e =
      let (iss, known, ok) =
        google_issuer_loop_sound parse token aud sub google_issuers last fresh (ground arith) in
      (iss, aud, known, ground (arith, ==_iff aud aud), λ q. ground arith, ok)

google_loop_sound :
    (parse : Parse) (token sub : Text) (auds : List Text) (last : Attempt)
    → last ≢ parsed sub
    → google_loop parse token auds last ≡ parsed sub
    → AcceptedFor parse google_issuers google_methods auds token sub
unfolding google_loop
google_loop_sound parse token sub [] last fresh e = absurd (fresh e)
google_loop_sound parse token sub (aud ∷ auds) last fresh e = elim (Bool-cases (aud == [])) [
  | inl empty ↦
      later_audience parse google_issuers google_methods auds aud token sub
        (google_loop_sound parse token sub auds last fresh (ground arith))
  | inr named ↦
      google_head_sound parse token sub aud auds last
        (google_issuer_loop parse token aud google_issuers last)
        (google_loop_sound parse token sub auds) fresh named refl e
]

conclude_subject : (a : Attempt) (sub : Text) → conclude a ≡ subject sub → a ≡ parsed sub
conclude_subject untried sub e = cc
conclude_subject parse_error sub e = cc
conclude_subject (parsed []) sub e = cc
conclude_subject (parsed (c ∷ s)) sub e = cc

-- An identity of Apple is one whose token the JWT library accepted from Apple's issuer, for one of
-- the configured audiences that is not empty, with RS256 or ES256.
pub verify_apple_sound :
    (auds : List Text) (parse : Parse) (token sub : Text)
    → verify_apple (record { audiences = auds; jwks = some parse }) token ≡ subject sub
    → AcceptedFor parse (apple_issuer ∷ []) apple_methods auds token sub
unfolding verify_apple
verify_apple_sound auds parse token sub e =
    apple_loop_sound parse token sub auds untried (λ p. cc) (conclude_subject _ sub e)

-- An identity of Google is one whose token the JWT library accepted from one of Google's two
-- issuers, for one of the configured audiences that is not empty, with RS256.
pub verify_google_sound :
    (auds : List Text) (parse : Parse) (token sub : Text)
    → verify_google (record { audiences = auds; jwks = some parse }) token ≡ subject sub
    → AcceptedFor parse google_issuers google_methods auds token sub
unfolding verify_google
verify_google_sound auds parse token sub e =
    google_loop_sound parse token sub auds untried (λ p. cc) (conclude_subject _ sub e)

abbrev pub all_empty : List Text → Bool
all_empty auds = all (λ a. a == []) auds

apple_loop-all_empty :
    (parse : Parse) (token : Text) (auds : List Text)
    → all_empty auds ≡ true
    → apple_loop parse token auds untried ≡ untried
unfolding apple_loop
apple_loop-all_empty parse token [] h = refl
apple_loop-all_empty parse token (aud ∷ auds) h =
    ground (arith, apple_loop-all_empty parse token auds)

google_loop-all_empty :
    (parse : Parse) (token : Text) (auds : List Text)
    → all_empty auds ≡ true
    → google_loop parse token auds untried ≡ untried
unfolding google_loop
google_loop-all_empty parse token [] h = refl
google_loop-all_empty parse token (aud ∷ auds) h =
    ground (arith, google_loop-all_empty parse token auds)

-- With a key set and no audience but empty ones, every token of either provider makes the verifier
-- dereference a nil token instead of returning an error.
pub verify_all_empty :
    (auds : List Text) (parse : Parse) (token : Text)
    → all_empty auds ≡ true
    → (verify_apple (record { audiences = auds; jwks = some parse }) token ≡ panicked)
      × (verify_google (record { audiences = auds; jwks = some parse }) token ≡ panicked)
unfolding verify_apple verify_google
verify_all_empty auds parse token h =
    (rw (apple_loop-all_empty parse token auds h), rw (google_loop-all_empty parse token auds h))
