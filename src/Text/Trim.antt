-- ===== src/Text/Trim.antt =====
-- Trimming and upper-casing a text that needs neither.
use pingclaw_server.Prelude.{ℕ, ◌≡◌, refl, Bool, true, false, ◌&&◌, [], ◌∷◌, arith, Text, all, ltb}
use pingclaw_server.Text.{is_space, trim_left, trim_right, trim_space, to_upper}

-- A character that upper-casing and trimming leave alone: printable ASCII, no small letter.
abbrev pub is_plain : ℕ → Bool
is_plain c = ltb 32 c && ltb c 97

plain-is_space : (c : ℕ) → is_plain c ≡ true → is_space c ≡ false
unfolding is_space
plain-is_space c h = ground arith

trim_left_plain : (s : Text) → all is_plain s ≡ true → trim_left is_space s ≡ s
unfolding trim_left
trim_left_plain [] h = refl
trim_left_plain (c ∷ s) h = ground (arith, plain-is_space c)

trim_right_plain : (s : Text) → all is_plain s ≡ true → trim_right is_space s ≡ s
unfolding trim_right
trim_right_plain [] h = refl
trim_right_plain (c ∷ s) h = ground (arith, plain-is_space c, trim_right_plain s)

pub trim_space_plain : (s : Text) → all is_plain s ≡ true → trim_space s ≡ s
unfolding trim_space
trim_space_plain s h = ground (arith, trim_left_plain s, trim_right_plain s)

pub to_upper_plain : (wide : ℕ → ℕ) (s : Text) → all is_plain s ≡ true → to_upper wide s ≡ s
unfolding to_upper
to_upper_plain wide [] h = refl
to_upper_plain wide (c ∷ s) h = ground (arith, to_upper_plain wide s)
