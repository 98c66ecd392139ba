-- ===== src/Export/Order.antt =====
-- ORDER BY in the queries of GetMyData (internal/pingclaw/handlers.go).
use pingclaw_server.Prelude.{ℕ, ◌≤◌, List, [], ◌∷◌, arith, leb, Bool-cases, inl, inr, All}
use mathlib.Core.List.Perm
use mathlib.Core.List.{Perm}
use pingclaw_server.Export.{insert_by, order_by}

module _ {ℓ} {A : Type ℓ} (time : A → ℕ) where
  -- Each row is no younger than those behind it.
  abbrev pub IsSorted : List A → Type 0
  IsSorted [] = Unit
  IsSorted (x ∷ xs) = All (λ y. time x ≤ time y) xs × IsSorted xs

  insert_by-perm : (x : A) (xs : List A) → Perm (insert_by time x xs) (x ∷ xs)
  insert_by-perm x [] = Perm.refl (x ∷ [])
  insert_by-perm x (y ∷ ys) = elim (Bool-cases (leb (time x) (time y))) [
    | inl first ↦ rw first (Perm.refl (x ∷ y ∷ ys))
    | inr behind ↦ rw behind (Perm.trans (Perm.cons y (insert_by-perm x ys)) (Perm.swap x y ys))
  ]

  pub order_by-perm : (xs : List A) → Perm (order_by time xs) xs
  order_by-perm [] = Perm.refl []
  order_by-perm (x ∷ xs) =
      Perm.trans (insert_by-perm x (order_by time xs)) (Perm.cons x (order_by-perm xs))

  All-le_trans :
      (x y : A) (ys : List A)
      → time x ≤ time y
      → All (λ z. time y ≤ time z) ys
      → All (λ z. time x ≤ time z) ys
  All-le_trans x y [] p a = tt
  All-le_trans x y (z ∷ ys) p a = (omega (arith, a.0), All-le_trans x y ys p a.1)

  All-insert_by :
      (b : A) (x : A) (xs : List A)
      → time b ≤ time x
      → All (λ y. time b ≤ time y) xs
      → All (λ y. time b ≤ time y) (insert_by time x xs)
  All-insert_by b x [] p a = (p, tt)
  All-insert_by b x (y ∷ ys) p a = elim (Bool-cases (leb (time x) (time y))) [
    | inl first ↦ rw first (p, a)
    | inr behind ↦ rw behind (a.0, All-insert_by b x ys p a.1)
  ]

  insert_by-IsSorted : (x : A) (xs : List A) → IsSorted xs → IsSorted (insert_by time x xs)
  insert_by-IsSorted x [] s = (tt, tt)
  insert_by-IsSorted x (y ∷ ys) s = elim (Bool-cases (leb (time x) (time y))) [
    | inl first ↦
        let p : time x ≤ time y = ground arith in rw first ((p, All-le_trans x y ys p s.0), s)
    | inr behind ↦
        let p : time y ≤ time x = ground arith in
        rw behind (All-insert_by y x ys p s.0, insert_by-IsSorted x ys s.1)
  ]

  pub order_by-IsSorted : (xs : List A) → IsSorted (order_by time xs)
  order_by-IsSorted [] = tt
  order_by-IsSorted (x ∷ xs) = insert_by-IsSorted x (order_by time xs) (order_by-IsSorted xs)
