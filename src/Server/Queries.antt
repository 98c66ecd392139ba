-- ===== src/Server/Queries.antt =====
-- rewriteQuery of cmd/pingclaw-server/main.go, which makes a query of the handlers one of SQLite.
use pingclaw_server.Prelude.{
  ℕ, zero, suc, ◌≤◌, ◌≡◌, refl, ap, Bool, true, false, ◌&&◌, ◌||◌, [], ◌∷◌, ◌++◌, arith, Text,
  codes, length, nat_beq, if◌then◌else◌, Bool-cases, inl, inr,
}
use pingclaw_server.Text.{has_prefix}
use pingclaw_server.Text.Cut.{lacks}

abbrev pub postgres_now : Text
postgres_now = codes "now()"

abbrev pub sqlite_now : Text
sqlite_now = codes "datetime('now')"

-- strings.ReplaceAll: the first argument counts the characters of an occurrence still to be passed.
pub replace_from : ℕ → Text → Text
unfolding has_prefix
replace_from skip [] = []
replace_from (suc skip) (c ∷ s) = replace_from skip s
replace_from zero (c ∷ s) =
    let past = replace_from 4 s in
    let on = replace_from 0 s in
    if has_prefix (c ∷ s) postgres_now then sqlite_now ++ past else c ∷ on

unfoldable pub rewrite_query : Text → Text
unfolding replace_from
rewrite_query q = replace_from 0 q

-- Whether a text occurs in another.
pub occurs : Text → Text → Bool
unfolding has_prefix
occurs p [] = has_prefix [] p
occurs p (c ∷ s) = has_prefix (c ∷ s) p || occurs p s

rewrite_query_two :
    rewrite_query (codes "VALUES (now(), now())")
    ≡ codes "VALUES (datetime('now'), datetime('now'))"
unfolding rewrite_query
rewrite_query_two = refl

-- A character that the second text lacks ends what the first can show of it.
has_prefix-append_lacking :
    (c : ℕ) (a s p : Text) → lacks c p ≡ true → has_prefix (a ++ c ∷ s) p ≡ has_prefix a p
unfolding has_prefix
has_prefix-append_lacking c [] s [] h = refl
has_prefix-append_lacking c [] s (x ∷ p) h = ground arith
has_prefix-append_lacking c (d ∷ a) s [] h = refl
has_prefix-append_lacking c (d ∷ a) s (x ∷ p) h = ground (arith, has_prefix-append_lacking c a s p)

has_prefix-length : (s p : Text) → has_prefix s p ≡ true → length p ≤ length s
unfolding has_prefix
has_prefix-length s [] h = omega arith
has_prefix-length [] (c ∷ p) h = cc
has_prefix-length (d ∷ s) (c ∷ p) h = ground (arith, has_prefix-length s p)

-- An occurrence of now() does not overlap with another.
prefix_kept :
    (c : ℕ) (a b : Text)
    → has_prefix ((c ∷ a) ++ (postgres_now ++ b)) postgres_now ≡ has_prefix (c ∷ a) postgres_now
unfolding has_prefix
prefix_kept c a b =
    ap (λ t. nat_beq c b'n' && t)
      (has_prefix-append_lacking b'n' a (codes "ow()" ++ b) (codes "ow()") refl)

replace_from-append :
    (skip : ℕ) (a b : Text)
    → skip ≤ length a
    → replace_from skip (a ++ (postgres_now ++ b))
      ≡ replace_from skip a ++ (sqlite_now ++ replace_from 0 b)
unfolding replace_from
replace_from-append zero [] b h = refl
replace_from-append (suc skip) [] b h = absurd (omega arith)
replace_from-append (suc skip) (c ∷ a) b h = replace_from-append skip a b (omega arith)
replace_from-append zero (c ∷ a) b h = elim (Bool-cases (has_prefix (c ∷ a) postgres_now)) [
  | inl yes_here ↦
      let long : 5 ≤ length (c ∷ a) = has_prefix-length (c ∷ a) postgres_now yes_here in
      rw (prefix_kept c a b, yes_here) (rw (replace_from-append 4 a b (omega arith)) refl)
  | inr not_here ↦
      rw (prefix_kept c a b, not_here) (ap (λ t. c ∷ t) (replace_from-append 0 a b (omega arith)))
]

-- Each now() of a query becomes datetime('now'), and what stands before and after it is rewritten
-- for itself.
pub rewrite_query-append :
    (a b : Text)
    → rewrite_query (a ++ (postgres_now ++ b)) ≡ rewrite_query a ++ (sqlite_now ++ rewrite_query b)
unfolding rewrite_query
rewrite_query-append a b = replace_from-append 0 a b (omega arith)

-- What begins with characters other than d begins so before it was rewritten.
has_prefix-replace_from :
    (s p : Text)
    → lacks b'd' p ≡ true
    → has_prefix (replace_from 0 s) p ≡ true
    → has_prefix s p ≡ true
unfolding replace_from has_prefix
has_prefix-replace_from s [] l h = refl
has_prefix-replace_from [] (x ∷ p) l h = h
has_prefix-replace_from (c ∷ s) (x ∷ p) l h = elim (Bool-cases (has_prefix (c ∷ s) postgres_now)) [
  | inl yes_here ↦ absurd (let q = rw yes_here at h in ground (arith, q))
  | inr not_here ↦ let q = rw not_here at h in ground (arith, q, has_prefix-replace_from s p)
]

replace_from_clean : (skip : ℕ) (s : Text) → occurs postgres_now (replace_from skip s) ≡ false
unfolding replace_from occurs has_prefix
replace_from_clean skip [] = refl
replace_from_clean (suc skip) (c ∷ s) = replace_from_clean skip s
replace_from_clean zero (c ∷ s) = elim (Bool-cases (has_prefix (c ∷ s) postgres_now)) [
  | inl yes_here ↦ rw yes_here (replace_from_clean 4 s)
  | inr not_here ↦ rw not_here (
      ground
        (arith, not_here, replace_from_clean 0 s, has_prefix-replace_from s (codes "ow()") refl))
]

replace_from_noop : (s : Text) → occurs postgres_now s ≡ false → replace_from 0 s ≡ s
unfolding replace_from occurs
replace_from_noop [] h = refl
replace_from_noop (c ∷ s) h = elim (Bool-cases (has_prefix (c ∷ s) postgres_now)) [
  | inl yes_here ↦ absurd (let q = rw yes_here at h in cc)
  | inr not_here ↦ rw not_here (ap (λ t. c ∷ t) (replace_from_noop s (rw not_here at h)))
]

-- A rewritten query has no now() left, also none that the replacement put together, and to rewrite it
-- again changes nothing.
pub rewrite_query_clean :
    (q : Text)
    → (occurs postgres_now (rewrite_query q) ≡ false)
      × (rewrite_query (rewrite_query q) ≡ rewrite_query q)
unfolding rewrite_query
rewrite_query_clean q =
    (replace_from_clean 0 q, replace_from_noop (replace_from 0 q) (replace_from_clean 0 q))
