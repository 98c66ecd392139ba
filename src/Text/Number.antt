-- ===== src/Text/Number.antt =====
-- strconv.ParseInt(s, 10, 64) and strconv.FormatInt(n, 10), as internal/kvstore/memstore.go uses
-- them to keep a counter as text.
pub mod RoundTrip
use mathlib.Core.Logic.{dite}
use mathlib.Core.WellFounded.{Acc, WellFounded}
use native.Mathlib.Decide.{dec_lt}
use pingclaw_server.Prelude.{
  ℕ, zero, suc, ◌+◌, ◌-◌, ◌*◌, ◌/◌, ◌%◌, ◌^◌, ◌<◌, [], ◌∷◌, ◌≡◌, refl, arith, Text, codes, ltb, leb,
  nat_beq, if◌then◌else◌, ◌||◌,
}
use pingclaw_server.Prelude.Int.{ℤ, pos, negsuc}
use pingclaw_server.Prelude.Order.{lt_wf}

abbrev pub max_uint64 : ℕ
max_uint64 = 2 ^ 64 - 1

abbrev pub max_int64 : ℕ
max_int64 = 2 ^ 63 - 1

-- What ParseUint returns: a value, ErrRange or ErrSyntax.
pub data Parsed : Type 0 where
  value : ℕ → Parsed
  range syntax : Parsed

-- The loop of ParseUint over the digits; it stops at the first digit that is no digit or that
-- takes the value past uint64.
unfoldable pub scan : Text → ℕ → Parsed
scan [] n = value n
scan (c ∷ s) n =
    let n' = n * 10 + (c - b'0') in
    let rest = scan s n' in
    if ltb c b'0' || ltb b'9' c then syntax else if ltb max_uint64 n' then range else rest

unfoldable pub parse_uint : Text → Parsed
unfolding scan
parse_uint [] = syntax
parse_uint (c ∷ s) = scan (c ∷ s) 0

-- The value that ParseInt returns beside its error: 0 on a syntax error, the nearest int64 when
-- out of range.
abbrev positive : Parsed → ℤ
positive (value n) = if ltb max_int64 n then pos max_int64 else pos n
positive range = pos max_int64
positive syntax = pos 0

abbrev negative : Parsed → ℤ
negative (value zero) = pos 0
negative (value (suc n)) = if ltb max_int64 n then negsuc max_int64 else negsuc n
negative range = negsuc max_int64
negative syntax = pos 0

unfoldable pub parse_int : Text → ℤ
parse_int [] = pos 0
parse_int (c ∷ s) =
    if nat_beq c b'-'
    then negative (parse_uint s)
    else if nat_beq c b'+'
    then positive (parse_uint s)
    else positive (parse_uint (c ∷ s))

unfoldable pub emit : (n : ℕ) → Acc ◌<◌ n → Text → Text
emit n (Acc.intro _ smaller) out =
    dite (dec_lt 0 n) (λ h. emit (n / 10) (smaller (n / 10) (omega arith)) ((b'0' + n % 10) ∷ out))
      (λ _. out)

unfoldable pub format_uint : ℕ → Text
unfolding emit lt_wf dec_lt
format_uint zero = b'0' ∷ []
format_uint (suc n) = emit (suc n) (lt_wf.apply (suc n)) []

unfoldable pub format_int : ℤ → Text
unfolding format_uint
format_int (pos n) = format_uint n
format_int (negsuc n) = b'-' ∷ format_uint (n + 1)

parse_int_range : parse_int (codes "9223372036854775808") ≡ pos max_int64
unfolding parse_int parse_uint
parse_int_range = refl

parse_int_syntax : parse_int (codes "12x") ≡ pos 0
unfolding parse_int parse_uint
parse_int_syntax = refl

format_int_neg : format_int (negsuc 41) ≡ codes "-42"
unfolding format_int
format_int_neg = refl
