-- ===== src/Repository/Table/Pairwise.antt =====
-- A relation between any two rows of a table, such as different keys, and the clauses of a SELECT
-- that keep it.
use billing_simulator.Base.{
  ℕ, zero, suc, Bool, List, [], ◌∷◌, leb, take, keep, map, All, All-map, All-mono, inl, inr,
  Bool-cases, if◌then◌else◌,
}
use billing_simulator.Repository.Table.{update_where, sort_by, insert_by, keep-All-also}
use billing_simulator.Repository.Table.Sorted.{take-All, insert_by-All, sort_by-All}

module _ {A : Type 0} (R : A → A → Type 0) where
  -- A row stands in the relation to each later one.
  abbrev pub Pairwise : List A → Type 0
  Pairwise [] = Unit
  Pairwise (x ∷ xs) = All (R x) xs × Pairwise xs

  keep-All : (P : A → Type 0) (p : A → Bool) (xs : List A) → All P xs → All P (keep p xs)
  keep-All P p xs h = All-mono (keep p xs) (keep-All-also P p xs h) λ x q. q.0

  pub keep-Pairwise : (p : A → Bool) (xs : List A) → Pairwise xs → Pairwise (keep p xs)
  keep-Pairwise p [] h = tt
  keep-Pairwise p (x ∷ xs) (h, hs) = elim (Bool-cases (p x)) [
    | inl e ↦ rw e (keep-All (R x) p xs h, keep-Pairwise p xs hs)
    | inr e ↦ rw e (keep-Pairwise p xs hs)
  ]

  pub take-Pairwise : (n : ℕ) (xs : List A) → Pairwise xs → Pairwise (take n xs)
  take-Pairwise zero xs h = tt
  take-Pairwise (suc n) [] h = tt
  take-Pairwise (suc n) (x ∷ xs) (h, hs) = (take-All (R x) n xs h, take-Pairwise n xs hs)

  pub map-Pairwise :
      (f : A → A) (xs : List A)
      → ((x y : A) → R x y → R (f x) (f y))
      → Pairwise xs
      → Pairwise (map f xs)
  map-Pairwise f [] k h = tt
  map-Pairwise f (x ∷ xs) k (h, hs) =
      (All-map (R (f x)) f xs (All-mono xs h λ y q. k x y q), map-Pairwise f xs k hs)

  pub update_where-Pairwise :
      (p : A → Bool) (f : A → A) (xs : List A)
      → ((x y : A) → R x y → R (if p x then f x else x) (if p y then f y else y))
      → Pairwise xs
      → Pairwise (update_where p f xs)
  unfolding update_where
  update_where-Pairwise p f [] k h = tt
  update_where-Pairwise p f (x ∷ xs) k (h, hs) = (changed xs h, update_where-Pairwise p f xs k hs)
    where
      changed :
          (ys : List A) → All (R x) ys → All (R (if p x then f x else x)) (update_where p f ys)
      changed [] q = tt
      changed (y ∷ ys) (q, qs) = (k x y q, changed ys qs)

  module _ (symmetric : (x y : A) → R x y → R y x) where
    insert_by-Pairwise :
        (key : A → ℕ) (x : A) (xs : List A)
        → All (R x) xs
        → Pairwise xs
        → Pairwise (insert_by key x xs)
    unfolding insert_by
    insert_by-Pairwise key x [] h k = (tt, tt)
    insert_by-Pairwise key x (y ∷ ys) (h, hs) (k, ks) = elim (Bool-cases (leb (key x) (key y))) [
      | inl e ↦ rw e ((h, hs), (k, ks))
      | inr e ↦
          rw e (insert_by-All (R y) key x ys (symmetric x y h) k, insert_by-Pairwise key x ys hs ks)
    ]

    pub sort_by-Pairwise : (key : A → ℕ) (xs : List A) → Pairwise xs → Pairwise (sort_by key xs)
    unfolding sort_by
    sort_by-Pairwise key [] h = tt
    sort_by-Pairwise key (x ∷ xs) (h, hs) =
        insert_by-Pairwise key x (sort_by key xs) (sort_by-All (R x) key xs h)
          (sort_by-Pairwise key xs hs)
