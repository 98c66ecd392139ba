-- ===== src/Text/Cut.antt =====
-- Cutting a text at a separator where two parts were joined by it, as with the "user_id:kind" of
-- the authentication cache.
use pingclaw_server.Prelude.{
  ℕ, ◌≡◌, refl, Bool, true, not, none, some, [], ◌∷◌, ◌++◌, arith, Text, all, nat_beq,
}
use pingclaw_server.Text.{cut_last, cut_first}

-- The character does not occur.
abbrev pub lacks : ℕ → Text → Bool
lacks c s = all (λ x. not (nat_beq x c)) s

cut_last-none : (c : ℕ) (s : Text) → lacks c s ≡ true → cut_last c s ≡ none
unfolding cut_last
cut_last-none c [] h = refl
cut_last-none c (x ∷ s) h = ground (arith, cut_last-none c s)

pub cut_last-append :
    (c : ℕ) (u k : Text) → lacks c k ≡ true → cut_last c (u ++ c ∷ k) ≡ some (u, k)
unfolding cut_last
cut_last-append c [] k h = ground (arith, cut_last-none c k)
cut_last-append c (x ∷ u) k h = ground (arith, cut_last-append c u k)

pub cut_first-append :
    (c : ℕ) (u k : Text) → lacks c u ≡ true → cut_first c (u ++ c ∷ k) ≡ some (u, k)
unfolding cut_first
cut_first-append c [] k h = ground arith
cut_first-append c (x ∷ u) k h = ground (arith, cut_first-append c u k)
