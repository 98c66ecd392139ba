-- ===== src/Db/Table.antt =====
-- Tables as lists of rows: selection, lookup by a primary key, and what a deletion or an update
-- does to a lookup.
use pingclaw_server.Prelude.{
  ◌≡◌, refl, subst, inl, inr, Bool-cases, All, Bool, true, Option, none, some, List, [], ◌∷◌, map,
  arith, Text, ◌==◌, ==_iff, if◌then◌else◌,
}

module _ {ℓ} {A : Type ℓ} where
  abbrev pub select : (A → Bool) → List A → List A
  select p [] = []
  select p (x ∷ xs) = if p x then x ∷ select p xs else select p xs

  abbrev pub find_by : (A → Text) → Text → List A → Option A
  find_by key k [] = none
  find_by key k (x ∷ xs) = if key x == k then some x else find_by key k xs

  -- A primary key: no two rows share it.
  abbrev pub DistinctBy : (A → Text) → List A → Type ℓ
  DistinctBy key [] = Unit
  DistinctBy key (x ∷ xs) = (find_by key (key x) xs ≡ none) × DistinctBy key xs

  abbrev pub keep : (A → Bool) → Option A → Option A
  keep p none = none
  keep p (some x) = if p x then some x else none

  pub find_by-key :
      (key : A → Text) (k : Text) (xs : List A) {x : A} → find_by key k xs ≡ some x → key x ≡ k
  find_by-key key k [] h = ground arith
  find_by-key key k (y ∷ xs) {x} h = ground (arith, find_by-key key k xs {x = x}, ==_iff (key y) k)

  pub find_by-select :
      (key : A → Text) (p : A → Bool) (k : Text) (xs : List A)
      → DistinctBy key xs
      → find_by key k (select p xs) ≡ keep p (find_by key k xs)
  find_by-select key p k [] d = refl
  find_by-select key p k (x ∷ xs) d =
      ground (arith, find_by-select key p k xs d.1, ==_iff (key x) k)

  pub select-DistinctBy :
      (key : A → Text) (p : A → Bool) (xs : List A)
      → DistinctBy key xs
      → DistinctBy key (select p xs)
  select-DistinctBy key p [] d = tt
  select-DistinctBy key p (x ∷ xs) d =
      ground (arith, select-DistinctBy key p xs d.1, find_by-select key p (key x) xs d.1)

  abbrev pub opt_map : (A → A) → Option A → Option A
  opt_map f none = none
  opt_map f (some x) = some (f x)

  pub find_by-map :
      (key : A → Text) (f : A → A)
      → ((x : A) → key (f x) ≡ key x)
      → (k : Text) (xs : List A) → find_by key k (map f xs) ≡ opt_map f (find_by key k xs)
  find_by-map key f same k [] = refl
  find_by-map key f same k (x ∷ xs) = rw (same x) (ground (arith, find_by-map key f same k xs))

  pub map-DistinctBy :
      (key : A → Text) (f : A → A)
      → ((x : A) → key (f x) ≡ key x)
      → (xs : List A) → DistinctBy key xs
      → DistinctBy key (map f xs)
  map-DistinctBy key f same [] d = tt
  map-DistinctBy key f same (x ∷ xs) d = (
    rw (same x) (ground (arith, find_by-map key f same (key x) xs)),
    map-DistinctBy key f same xs d.1,
  )

module _ {ℓ κ} {A : Type ℓ} (P : A → Type κ) where
  pub All-find_by :
      (key : A → Text) (k : Text) (xs : List A) {x : A} → All P xs → find_by key k xs ≡ some x → P x
  All-find_by key k [] all h = absurd (ground arith)
  All-find_by key k (y ∷ xs) {x} all h = elim (Bool-cases (key y == k)) [
    | inl hit ↦ subst P (ground arith) all.0
    | inr miss ↦ All-find_by key k xs all.1 (ground arith)
  ]

  pub All-select_imp {μ} :
      (Q : A → Type μ) (p : A → Bool)
      → ((x : A) → p x ≡ true → P x → Q x)
      → (xs : List A) → All P xs
      → All Q (select p xs)
  All-select_imp Q p imp [] all = tt
  All-select_imp Q p imp (x ∷ xs) all = elim (Bool-cases (p x)) [
    | inl hit ↦ rw hit (imp x hit all.0, All-select_imp Q p imp xs all.1)
    | inr miss ↦ rw miss (All-select_imp Q p imp xs all.1)
  ]

  pub All-map_imp {μ} :
      (Q : A → Type μ) (f : A → A)
      → ((x : A) → P x → Q (f x))
      → (xs : List A) → All P xs
      → All Q (map f xs)
  All-map_imp Q f imp [] all = tt
  All-map_imp Q f imp (x ∷ xs) all = (imp x all.0, All-map_imp Q f imp xs all.1)

  pub All-imp {μ} : (Q : A → Type μ) → ((x : A) → P x → Q x) → (xs : List A) → All P xs → All Q xs
  All-imp Q imp [] all = tt
  All-imp Q imp (x ∷ xs) all = (imp x all.0, All-imp Q imp xs all.1)
