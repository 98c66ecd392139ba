-- ===== src/Kv.antt =====
-- The KVStore interface of internal/kvstore/kvstore.go as an abstract store: a map from keys to
-- values with an optional deadline, where what has passed its deadline counts as absent. The
-- handlers are written against it.
pub mod Laws
pub mod Calls
use pingclaw_server.Prelude.{
  ℕ, ◌+◌, ◌-◌, ◌≡◌, Bool, true, false, Option, none, some, Text, codes, ltb, nat_beq, if◌then◌else◌,
  ◌==◌,
}
use pingclaw_server.Prelude.Int.{ℤ, pos, negsuc, is_pos, sub_ℕ}
use pingclaw_server.Text.Number.{max_int64, parse_int, format_int}

-- time.Now().Add(d); times are nanoseconds from a point far in the past.
abbrev pub after : ℕ → ℤ → ℕ
after now (pos n) = now + n
after now (negsuc n) = now - (n + 1)

pub record Entry : Type 0 where
  pub value : Text
  pub expires_at : Option ℕ

-- A deadline has passed when the clock is strictly beyond it.
abbrev pub past : Option ℕ → ℕ → Bool
past none now = false
past (some t) now = ltb t now

abbrev pub expired : Entry → ℕ → Bool
expired e now = past e.expires_at now

-- The error of Get and GetDel: ErrKeyNotFound, or a failure of the store.
pub data Reply {ℓ} (A : Type ℓ) : Type ℓ where
  found : A → Reply A
  key_not_found : Reply A
  failed : Reply A

abbrev pub Kv : Type 0
Kv = Text → Option Entry

-- What a key holds at a time.
abbrev pub live : ℕ → Option Entry → Option Entry
live now none = none
live now (some e) = if expired e now then none else some e

abbrev pub value_of : Option Entry → Reply Text
value_of none = key_not_found
value_of (some e) = found e.value

abbrev pub with_ttl : ℕ → Text → ℤ → Entry
with_ttl now v ttl = record {
  value = v;
  expires_at = if is_pos ttl then some (after now ttl) else none;
}

-- int64 addition of one.
abbrev pub next_int64 : ℤ → ℤ
next_int64 (pos n) = if nat_beq n max_int64 then negsuc max_int64 else pos (n + 1)
next_int64 (negsuc n) = if nat_beq n 0 then pos 0 else negsuc (n - 1)

abbrev pub counted : Option Entry → ℤ
counted none = pos 1
counted (some e) = next_int64 (parse_int e.value)

abbrev pub recount : Option Entry → Entry
recount none = record { value = codes "1"; expires_at = none }
recount (some e) = record e { value = format_int (next_int64 (parse_int e.value)) }

abbrev pub redate : ℕ → ℤ → Option Entry → Option Entry
redate now ttl none = none
redate now ttl (some e) = some (record e { expires_at = some (after now ttl) })

abbrev pub remaining : ℕ → Option ℕ → ℤ
remaining now none = negsuc 0
remaining now (some t) = sub_ℕ t now

abbrev pub time_left : ℕ → Option Entry → ℤ
time_left now none = negsuc 0
time_left now (some e) = remaining now e.expires_at

abbrev pub update : Text → Option Entry → Kv → Kv
update k e m j = if k == j then e else m j

unfoldable pub get : ℕ → Text → Kv → Reply Text
get now k m = value_of (live now (m k))

unfoldable pub set : ℕ → Text → Text → ℤ → Kv → Kv
set now k v ttl m = update k (some (with_ttl now v ttl)) m

unfoldable pub get_del : ℕ → Text → Kv → Reply Text × Kv
get_del now k m = (value_of (live now (m k)), update k none m)

unfoldable pub del : Text → Kv → Kv
del k m = update k none m

unfoldable pub incr : ℕ → Text → Kv → ℤ × Kv
incr now k m = (counted (live now (m k)), update k (some (recount (live now (m k)))) m)

unfoldable pub expire : ℕ → Text → ℤ → Kv → Kv
expire now k ttl m = update k (redate now ttl (live now (m k))) m

unfoldable pub ttl : ℕ → Text → Kv → ℤ
ttl now k m = time_left now (live now (m k))
