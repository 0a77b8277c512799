-- ===== src/Repository/Table/Sorted.antt =====
-- The ORDER BY, LIMIT and result columns of a SELECT: what holds of each row of a table holds of each
-- row that is returned.
use billing_simulator.Base.{
  ℕ, zero, suc, Bool, Option, none, some, List, [], ◌∷◌, leb, take, keep, All, All-map, All-mono,
  inl, inr, Bool-cases,
}
use billing_simulator.Entity.Errors.{Outcome, returns, fails, panics, overflows, Error}
use billing_simulator.Repository.Table.{find_all, sort_by, insert_by, keep-All-also}

-- A call fails, or returns what has the property.
abbrev pub OnReturn : {A : Type 0} → Outcome A → (A → Type 0) → Type 0
OnReturn (returns a) P = P a
OnReturn (fails e) P = Unit
OnReturn panics P = ⊥
OnReturn overflows P = ⊥

module _ {A : Type 0} (P : A → Type 0) where
  pub take-All : (n : ℕ) (xs : List A) → All P xs → All P (take n xs)
  take-All zero xs h = tt
  take-All (suc n) [] h = tt
  take-All (suc n) (x ∷ xs) (h, hs) = (h, take-All n xs hs)

  pub insert_by-All :
      (key : A → ℕ) (x : A) (xs : List A) → P x → All P xs → All P (insert_by key x xs)
  unfolding insert_by
  insert_by-All key x [] h k = (h, tt)
  insert_by-All key x (y ∷ ys) h (k, ks) = elim (Bool-cases (leb (key x) (key y))) [
    | inl e ↦ rw e (h, (k, ks))
    | inr e ↦ rw e (k, insert_by-All key x ys h ks)
  ]

  pub sort_by-All : (key : A → ℕ) (xs : List A) → All P xs → All P (sort_by key xs)
  unfolding sort_by
  sort_by-All key [] h = tt
  sort_by-All key (x ∷ xs) (h, hs) = insert_by-All key x (sort_by key xs) h (sort_by-All key xs hs)

  pub find_all-OnReturn :
      (p : A → Bool) (arrange : List A → List A) (scan : A → A) (fault : Option Error) (xs : List A)
      → ((ys : List A) → All P ys → All P (arrange ys))
      → ((x : A) → P x → P (scan x))
      → All P xs
      → OnReturn (find_all p arrange scan fault xs) (All P)
  unfolding find_all
  find_all-OnReturn p arrange scan (some e) xs k l h = tt
  find_all-OnReturn p arrange scan none xs k l h = All-map P scan (arrange (keep p xs)) (
      All-mono (arrange (keep p xs))
        (k (keep p xs) (All-mono (keep p xs) (keep-All-also P p xs h) λ x q. q.0)) l)
