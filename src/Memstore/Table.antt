-- ===== src/Memstore/Table.antt =====
-- The Go map `data map[string]*entry` of memstore.go, and the laws of reading it after a write.
use pingclaw_server.Prelude.{
  ◌≡◌, refl, Bool, Option, none, some, List, [], ◌∷◌, arith, Text, ◌==◌, ==_iff, if◌then◌else◌,
}
use pingclaw_server.Kv.{Entry}

abbrev pub Entries : Type 0
Entries = List (Text × Entry)

unfoldable pub lookup : Text → Entries → Option Entry
lookup k [] = none
lookup k ((j, e) ∷ l) = if j == k then some e else lookup k l

-- delete(s.data, key)
pub delete : Text → Entries → Entries
delete k [] = []
delete k ((j, e) ∷ l) = let rest = delete k l in if j == k then rest else (j, e) ∷ rest

-- s.data[key] = e
pub store : Text → Entry → Entries → Entries
store k e l = (k, e) ∷ delete k l

-- `for k, e := range s.data { if … { delete(s.data, k) } }`
pub delete_where : (Entry → Bool) → Entries → Entries
delete_where p [] = []
delete_where p ((j, e) ∷ l) = let rest = delete_where p l in if p e then rest else (j, e) ∷ rest

pub lookup-delete :
    (k j : Text) (l : Entries) → lookup j (delete k l) ≡ (if k == j then none else lookup j l)
unfolding lookup delete
lookup-delete k j [] = ground arith
lookup-delete k j ((i, e) ∷ l) =
    ground (arith, lookup-delete k j l, ==_iff i k, ==_iff i j, ==_iff k j)

pub lookup-store :
    (k j : Text) (e : Entry) (l : Entries)
    → lookup j (store k e l) ≡ (if k == j then some e else lookup j l)
unfolding store lookup
lookup-store k j e l = ground (arith, lookup-delete k j l)

-- Keys are distinct, as in a Go map.
abbrev pub Distinct : Entries → Type 0
Distinct [] = Unit {0}
Distinct ((k, e) ∷ l) = (lookup k l ≡ none) × Distinct l

abbrev keep : (Entry → Bool) → Option Entry → Option Entry
keep p none = none
keep p (some e) = if p e then none else some e

pub lookup-delete_where :
    (p : Entry → Bool) (k : Text) (l : Entries)
    → Distinct l
    → lookup k (delete_where p l) ≡ keep p (lookup k l)
unfolding lookup delete_where
lookup-delete_where p k [] d = refl
lookup-delete_where p k ((j, e) ∷ l) (fresh, d) =
    ground (arith, lookup-delete_where p k l d, lookup-delete_where p j l d, ==_iff j k)

pub delete-Distinct : (k : Text) (l : Entries) → Distinct l → Distinct (delete k l)
unfolding delete
delete-Distinct k [] d = tt
delete-Distinct k ((j, e) ∷ l) (fresh, d) =
    ground (arith, delete-Distinct k l d, lookup-delete k j l)

pub store-Distinct : (k : Text) (e : Entry) (l : Entries) → Distinct l → Distinct (store k e l)
unfolding store
store-Distinct k e l d = ground (arith, delete-Distinct k l d, lookup-delete k k l, ==_iff k k)

pub delete_where-Distinct :
    (p : Entry → Bool) (l : Entries) → Distinct l → Distinct (delete_where p l)
unfolding delete_where
delete_where-Distinct p [] d = tt
delete_where-Distinct p ((j, e) ∷ l) (fresh, d) =
    ground (arith, delete_where-Distinct p l d, lookup-delete_where p j l d)
