-- ===== src/Text/Number/RoundTrip.antt =====
-- strconv.ParseInt after strconv.FormatInt, as Incr of internal/kvstore/memstore.go uses them.
use mathlib.Core.Logic.{dif_pos, dif_neg}
use mathlib.Core.WellFounded.{Acc}
use native.Mathlib.Decide.{dec_lt}
use native.Mathlib.Bridge.{le_prop}
use pingclaw_server.Prelude.{
  ℕ, zero, suc, ◌+◌, ◌-◌, ◌*◌, ◌/◌, ◌%◌, ◌<◌, ◌≤◌, [], ◌∷◌, ◌≡◌, refl, ◌∙◌, arith, Text,
}
use pingclaw_server.Prelude.Int.{ℤ, pos, negsuc}
use pingclaw_server.Prelude.Order.{lt_wf}
use pingclaw_server.Text.Number.{
  max_uint64, max_int64, value, scan, parse_uint, parse_int, emit, format_uint, format_int,
}

scan_digit :
    (n : ℕ) (out : Text) → n ≤ max_uint64 → scan ((b'0' + n % 10) ∷ out) (n / 10) ≡ scan out n
unfolding scan
scan_digit n out h =
    let e : n / 10 * 10 + (b'0' + n % 10 - b'0') ≡ n = omega arith in rw e (ground arith)

scan-emit :
    (n : ℕ) (w : Acc ◌<◌ n) (out : Text) → n ≤ max_uint64 → scan (emit n w out) 0 ≡ scan out n
unfolding emit
scan-emit n (Acc.intro _ smaller) out h = elim (dec_lt 0 n) [
  | yes p ↦ rw (dif_pos _ le_prop p) (
      scan-emit (n / 10) (smaller (n / 10) (omega arith)) ((b'0' + n % 10) ∷ out) (omega arith)
      ∙ scan_digit n out h)
  | no p ↦ let e : n ≡ 0 = omega arith in rw (dif_neg _ p) (rw e)
]

-- A text that starts with a digit.
abbrev pub StartsWithDigit : Text → Type 0
StartsWithDigit t = (d : ℕ) × (s : Text) × (t ≡ d ∷ s) × (b'0' ≤ d)

emit-cons :
    (n : ℕ) (w : Acc ◌<◌ n) (d : ℕ) (out : Text) → b'0' ≤ d → StartsWithDigit (emit n w (d ∷ out))
unfolding emit
emit-cons n (Acc.intro _ smaller) d out h = elim (dec_lt 0 n) [
  | yes p ↦
      rw (dif_pos _ le_prop p) (
        emit-cons (n / 10) (smaller (n / 10) (omega arith)) (b'0' + n % 10) (d ∷ out) (omega arith))
  | no p ↦ rw (dif_neg _ p) (d, out, refl, h)
]

emit_pos : (n : ℕ) (w : Acc ◌<◌ n) → 0 < n → StartsWithDigit (emit n w [])
unfolding emit
emit_pos n (Acc.intro _ smaller) h =
    rw (dif_pos _ le_prop h)
      (emit-cons (n / 10) (smaller (n / 10) (omega arith)) (b'0' + n % 10) [] (omega arith))

pub format_uint-StartsWithDigit : (n : ℕ) → StartsWithDigit (format_uint n)
unfolding format_uint
format_uint-StartsWithDigit zero = (b'0', [], refl, omega arith)
format_uint-StartsWithDigit (suc n) = emit_pos (suc n) (lt_wf.apply (suc n)) (omega arith)

parse_uint_of_digit : (t : Text) → StartsWithDigit t → parse_uint t ≡ scan t 0
unfolding parse_uint
parse_uint_of_digit [] (d, s, e, h) = ground arith
parse_uint_of_digit (c ∷ t) h = refl

scan-format_uint : (n : ℕ) → n ≤ max_uint64 → scan (format_uint n) 0 ≡ value n
unfolding format_uint scan
scan-format_uint zero h = refl
scan-format_uint (suc n) h = scan-emit (suc n) (lt_wf.apply (suc n)) [] h

-- ParseUint returns what FormatUint printed, for every uint64.
pub parse_uint-format_uint : (n : ℕ) → n ≤ max_uint64 → parse_uint (format_uint n) ≡ value n
parse_uint-format_uint n h =
    parse_uint_of_digit (format_uint n) (format_uint-StartsWithDigit n) ∙ scan-format_uint n h

-- An int64: between -2^63 and 2^63 - 1.
abbrev pub InInt64 : ℤ → Type 0
InInt64 (pos n) = n ≤ max_int64
InInt64 (negsuc n) = n ≤ max_int64

parse_int_unsigned :
    (t : Text) (n : ℕ)
    → StartsWithDigit t
    → parse_uint t ≡ value n
    → n ≤ max_int64
    → parse_int t ≡ pos n
unfolding parse_int
parse_int_unsigned [] n (d, s, e, h) p q = ground arith
parse_int_unsigned (c ∷ t) n (d, s, e, h) p q = ground arith

-- ParseInt returns what FormatInt printed, for every int64.
pub parse_int-format_int : (z : ℤ) → InInt64 z → parse_int (format_int z) ≡ z
unfolding format_int
parse_int-format_int (pos n) h =
    parse_int_unsigned (format_uint n) n (format_uint-StartsWithDigit n)
      (parse_uint-format_uint n (omega arith)) h
parse_int-format_int (negsuc n) h =
    unfold parse_int in rw (parse_uint-format_uint (n + 1) (omega arith)) (ground arith)
