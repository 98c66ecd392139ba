-- ===== src/Memstore.antt =====
-- internal/kvstore/memstore.go: a map behind a mutex, so that each method is one step, and a
-- goroutine that evicts expired entries. `now` is what time.Now() returns in the method.
pub mod Table
pub mod Refines
use pingclaw_server.Prelude.{
  ℕ, ◌≡◌, Bool, true, false, Option, none, some, List, [], ◌∷◌, Text, codes, if◌then◌else◌,
}
use pingclaw_server.Prelude.Int.{ℤ, pos, negsuc, is_pos, sub_ℕ}
use pingclaw_server.Text.Number.{parse_int, format_int}
use pingclaw_server.Kv.{Entry, Reply, found, key_not_found, after, expired, next_int64}
use Table.{Entries, lookup, store, delete, delete_where}

pub record Memstore : Type 0 where
  pub entries : Entries
  pub done : Bool

unfoldable pub new_memstore : Memstore
new_memstore = record { entries = []; done = false }

-- close(s.done); closing twice panics.
pub close : Memstore → Option Memstore
close s = if s.done then none else some (record s { done = true })

-- One round of the cleanup goroutine at a tick; it has returned once the store is closed.
pub cleanup : ℕ → Memstore → Memstore
cleanup now s =
    if s.done then s else record s { entries = delete_where (λ e. expired e now) s.entries }

get_entry : ℕ → Text → Memstore → Option Entry → Reply Text × Memstore
get_entry now key s none = (key_not_found, record s { entries = delete key s.entries })
get_entry now key s (some e) =
    if expired e now
    then (key_not_found, record s { entries = delete key s.entries })
    else (found e.value, s)

pub get : ℕ → Text → Memstore → Reply Text × Memstore
unfolding get_entry
get now key s = get_entry now key s (lookup key s.entries)

-- `e := &entry{value: value}`, and a deadline if the ttl is positive.
abbrev pub new_entry : ℕ → Text → ℤ → Entry
new_entry now value ttl =
    let e : Entry = record { value = value; expires_at = none } in
    if is_pos ttl then record e { expires_at = some (after now ttl) } else e

pub set : ℕ → Text → Text → ℤ → Memstore → Memstore
set now key value ttl s = record s { entries = store key (new_entry now value ttl) s.entries }

get_del_entry : ℕ → Text → Memstore → Option Entry → Reply Text × Memstore
get_del_entry now key s none = (key_not_found, record s { entries = delete key s.entries })
get_del_entry now key s (some e) =
    if expired e now
    then (key_not_found, record s { entries = delete key s.entries })
    else (found e.value, record s { entries = delete key s.entries })

pub get_del : ℕ → Text → Memstore → Reply Text × Memstore
unfolding get_del_entry
get_del now key s = get_del_entry now key s (lookup key s.entries)

pub del : Text → Memstore → Memstore
del key s = record s { entries = delete key s.entries }

-- The entry is created at "1" with no deadline.
abbrev start_count : Text → Memstore → ℤ × Memstore
start_count key s = (
  pos 1,
  record s { entries = store key (record { value = codes "1"; expires_at = none }) s.entries },
)

incr_entry : ℕ → Text → Memstore → Option Entry → ℤ × Memstore
incr_entry now key s none = start_count key s
incr_entry now key s (some e) =
    if expired e now
    then start_count key s
    else (let n = next_int64 (parse_int e.value) in
        (n, record s { entries = store key (record e { value = format_int n }) s.entries }))

pub incr : ℕ → Text → Memstore → ℤ × Memstore
unfolding incr_entry
incr now key s = incr_entry now key s (lookup key s.entries)

expire_entry : ℕ → Text → ℤ → Memstore → Option Entry → Memstore
expire_entry now key ttl s none = s
expire_entry now key ttl s (some e) =
    if expired e now
    then s
    else record s { entries = store key (record e { expires_at = some (after now ttl) }) s.entries }

pub expire : ℕ → Text → ℤ → Memstore → Memstore
unfolding expire_entry
expire now key ttl s = expire_entry now key ttl s (lookup key s.entries)

until : ℕ → Option ℕ → ℤ
until now none = negsuc 0
until now (some t) = sub_ℕ t now

ttl_entry : ℕ → Option Entry → ℤ
unfolding until
ttl_entry now none = negsuc 0
ttl_entry now (some e) = if expired e now then negsuc 0 else until now e.expires_at

pub ttl : ℕ → Text → Memstore → ℤ
unfolding ttl_entry
ttl now key s = ttl_entry now (lookup key s.entries)
