-- ===== src/Text/Hex.antt =====
-- hex.EncodeToString on bytes, as GenerateToken uses it.
use pingclaw_server.Prelude.{
  ℕ, ◌*◌, ◌/◌, ◌%◌, ◌<◌, ◌≡◌, refl, ap₂, List, [], ◌∷◌, arith, All, length,
}
use pingclaw_server.Text.{hex_digit, hex_encode}

abbrev pub AreBytes : List ℕ → Type 0
AreBytes = All (λ b. b < 256)

hex_digit-injective : (a b : ℕ) → a < 16 → b < 16 → hex_digit a ≡ hex_digit b → a ≡ b
hex_digit-injective a b p q e = ground arith

pub hex_encode-injective :
    (xs ys : List ℕ) → AreBytes xs → AreBytes ys → hex_encode xs ≡ hex_encode ys → xs ≡ ys
unfolding hex_encode
hex_encode-injective [] [] p q e = refl
hex_encode-injective [] (y ∷ ys) p q e = cc
hex_encode-injective (x ∷ xs) [] p q e = cc
hex_encode-injective (x ∷ xs) (y ∷ ys) (px, p) (qy, q) e =
    let high : x / 16 ≡ y / 16 =
      hex_digit-injective (x / 16) (y / 16) (omega arith) (omega arith) (cc) in
    let low : x % 16 ≡ y % 16 =
      hex_digit-injective (x % 16) (y % 16) (omega arith) (omega arith) (cc) in
    ap₂ ◌∷◌ (omega arith) (hex_encode-injective xs ys p q (cc))

pub length-hex_encode : (bs : List ℕ) → length (hex_encode bs) ≡ 2 * length bs
unfolding hex_encode
length-hex_encode [] = refl
length-hex_encode (b ∷ bs) = omega (arith, length-hex_encode bs)
