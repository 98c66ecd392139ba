-- ===== src/Token/Codes.antt =====
-- The randomness of GenerateToken and generateWebCode (internal/pingclaw/handlers.go), and the
-- normalisation that WebLogin and OAuthAuthorize apply to a typed code.
use pingclaw_server.Prelude.{
  ℕ, zero, suc, ◌%◌, ◌<◌, ◌≡◌, refl, Bool, true, List, [], ◌∷◌, ◌++◌, arith, Text, all, nat_beq,
  get_or, if◌then◌else◌,
}
use pingclaw_server.Text.{trim_space, to_upper}
use pingclaw_server.Text.Hex.{AreBytes, hex_encode-injective}
use pingclaw_server.Text.Trim.{is_plain, trim_space_plain, to_upper_plain}
use pingclaw_server.Token.{generate_token, generate_web_code, symbol, alphabet}

append_cancel : (p : Text) {s t : Text} → p ++ s ≡ p ++ t → s ≡ t
append_cancel [] e = e
append_cancel (c ∷ p) e = append_cancel p (cc)

-- Two tokens with one prefix are equal only if they come from the same random bytes.
pub generate_token-injective :
    (prefix : Text) (xs ys : List ℕ)
    → AreBytes xs
    → AreBytes ys
    → generate_token prefix xs ≡ generate_token prefix ys
    → xs ≡ ys
unfolding generate_token
generate_token-injective prefix xs ys p q e =
    hex_encode-injective xs ys p q (append_cancel prefix e)

-- The numbers under a bound, the greatest first: a finite range is checked by running a test on them.
abbrev under : ℕ → List ℕ
under zero = []
under (suc n) = n ∷ under n

at_each : (p : ℕ → Bool) (x n : ℕ) → all p (under n) ≡ true → x < n → p x ≡ true
at_each p x zero h lt = ground arith
at_each p x (suc n) h lt = ground (arith, at_each p x n)

-- How many numbers below a bound pass a test.
pub count_below : ℕ → (ℕ → Bool) → ℕ
count_below zero p = 0
count_below (suc n) p = if p n then suc (count_below n p) else count_below n p

abbrev draws : ℕ → ℕ
draws i = count_below 256 (λ b. nat_beq (symbol b) (get_or alphabet i 0))

draws_table : all (λ i. nat_beq (draws i) 8) (under 32) ≡ true
unfolding count_below symbol
draws_table = refl

-- Each of the 32 symbols is drawn by exactly 8 of the 256 values of a random byte: the remainder
-- brings no bias.
pub symbol_unbiased :
    (i : ℕ) → i < 32 → count_below 256 (λ b. nat_beq (symbol b) (get_or alphabet i 0)) ≡ 8
symbol_unbiased i h = ground (arith, at_each (λ j. nat_beq (draws j) 8) i 32 draws_table h)

plain_table : all (λ i. is_plain (get_or alphabet i 0)) (under 32) ≡ true
plain_table = refl

symbol_plain : (b : ℕ) → is_plain (symbol b) ≡ true
unfolding symbol
symbol_plain b = at_each (λ i. is_plain (get_or alphabet i 0)) (b % 32) 32 plain_table (omega arith)

web_code_plain : (bytes : List ℕ) → all is_plain (generate_web_code bytes) ≡ true
unfolding generate_web_code
web_code_plain [] = refl
web_code_plain (b ∷ bytes) = ground (arith, symbol_plain b, web_code_plain bytes)

-- Trimming and upper-casing what the user typed leaves a web code as it was issued.
pub web_code_normal :
    (wide : ℕ → ℕ) (bytes : List ℕ)
    → trim_space (to_upper wide (generate_web_code bytes)) ≡ generate_web_code bytes
web_code_normal wide bytes =
    rw (to_upper_plain wide (generate_web_code bytes) (web_code_plain bytes))
      (trim_space_plain (generate_web_code bytes) (web_code_plain bytes))
