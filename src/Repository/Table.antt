-- ===== src/Repository/Table.antt =====
-- What the statements of internal/repository have in common.
pub mod Sorted
pub mod Pairwise
use billing_simulator.Base.{
  ◌-◌, ◌%◌, arith, Option-cases, subst, refl, ◌++◌, Time, str_eq, find?, keep, ◌==◌, map, ℕ, ◌≡◌,
  Bool, true, false, Option, none, some, List, [], ◌∷◌, leb, any, All, inl, inr, Bool-cases,
  if◌then◌else◌,
}
use billing_simulator.Entity.Errors.{pg_error, conflicting_data, Outcome, returns, fails, Error}

no_true : {b : Bool} → b ≡ false → b ≡ true → ⊥
no_true e h = cc

-- What a TIMESTAMPTZ column keeps of an instant: the driver drops what is below a microsecond.
abbrev pub timestamp : Time → Time
timestamp t = t - t % 1000

-- `deleted_at IS NULL`
abbrev pub is_live : Option Time → Bool
is_live none = true
is_live (some _) = false

-- `column = …`, which NULL is not
unfoldable pub equals_number : ℕ → Option ℕ → Bool
equals_number n none = false
equals_number n (some k) = k == n

-- A violated unique constraint is reported as conflicting data by the INSERTs.
insert_error : Error → Error
insert_error (pg_error code) = if str_eq code "23505" then conflicting_data else pg_error code
insert_error e = e

module _ {A : Type 0} where
  -- UPDATE … SET … WHERE

  unfoldable pub update_where : (A → Bool) → (A → A) → List A → List A
  update_where p f [] = []
  update_where p f (x ∷ xs) = (if p x then f x else x) ∷ update_where p f xs

  -- An UPDATE that reports an error where it affected no row.
  unfoldable pub update_or : Error → (A → Bool) → (A → A) → Option Error → List A → Outcome (List A)
  update_or missing p f (some e) xs = fails e
  update_or missing p f none xs = if any p xs then returns (update_where p f xs) else fails missing

  -- INSERT of one row, of which the table keeps what `stored` leaves. The constraints of the
  -- schema are the database's: the error that it gives is an input, as for every statement.
  unfoldable pub insert : (A → A) → A → Option Error → List A → Outcome (List A)
  unfolding insert_error
  insert stored x (some e) xs = fails (insert_error e)
  insert stored x none xs = returns (xs ++ stored x ∷ [])

  -- SELECT … LIMIT 1, of which the caller gets what `scan` reads.
  unfoldable pub find_first : Error → (A → Bool) → (A → A) → Option Error → List A → Outcome A
  find_first missing p scan (some e) xs = fails e
  find_first missing p scan none xs = elim (find? p xs) [
    | none ↦ fails missing
    | some x ↦ returns (scan x)
  ]

  -- ORDER BY a number, ascending
  pub insert_by : (A → ℕ) → A → List A → List A
  insert_by key x [] = x ∷ []
  insert_by key x (y ∷ ys) = if leb (key x) (key y) then x ∷ y ∷ ys else y ∷ insert_by key x ys

  unfoldable pub sort_by : (A → ℕ) → List A → List A
  unfolding insert_by
  sort_by key [] = []
  sort_by key (x ∷ xs) = insert_by key x (sort_by key xs)

  -- ORDER BY a number DESC
  insert_desc : (A → ℕ) → A → List A → List A
  insert_desc key x [] = x ∷ []
  insert_desc key x (y ∷ ys) = if leb (key y) (key x) then x ∷ y ∷ ys else y ∷ insert_desc key x ys

  unfoldable pub sort_desc : (A → ℕ) → List A → List A
  unfolding insert_desc
  sort_desc key [] = []
  sort_desc key (x ∷ xs) = insert_desc key x (sort_desc key xs)

  insert_desc-All {κ} :
      (P : A → Type κ) (key : A → ℕ) (x : A) (xs : List A)
      → P x
      → All P xs
      → All P (insert_desc key x xs)
  unfolding insert_desc
  insert_desc-All P key x [] h k = (h, tt)
  insert_desc-All P key x (y ∷ ys) h (k, ks) = elim (Bool-cases (leb (key y) (key x))) [
    | inl e ↦ rw e (h, (k, ks))
    | inr e ↦ rw e (k, insert_desc-All P key x ys h ks)
  ]

  -- The order of the rows does not matter to what holds of each.
  pub sort_desc-All {κ} :
      (P : A → Type κ) (key : A → ℕ) (xs : List A) → All P xs → All P (sort_desc key xs)
  unfolding sort_desc
  sort_desc-All P key [] h = tt
  sort_desc-All P key (x ∷ xs) (h, hs) =
      insert_desc-All P key x (sort_desc key xs) h (sort_desc-All P key xs hs)

  -- What a WHERE clause admits is what its test says.
  pub keep-All : (p : A → Bool) (xs : List A) → All (λ x. p x ≡ true) (keep p xs)
  keep-All p [] = tt
  keep-All p (x ∷ xs) = elim (Bool-cases (p x)) [
    | inl e ↦ rw e (e, keep-All p xs)
    | inr e ↦ rw e (keep-All p xs)
  ]

  find?-append :
      (p : A → Bool) (xs : List A) (x : A)
      → any p xs ≡ false
      → p x ≡ true
      → find? p (xs ++ x ∷ []) ≡ some x
  find?-append p [] x h k = rw k refl
  find?-append p (y ∷ ys) x h k = elim (Bool-cases (p y)) [
    | inl e ↦ absurd (ground (arith, e, h))
    | inr e ↦
        let rest : any p ys ≡ false = ground (arith, e, h) in rw e (find?-append p ys x rest k)
  ]

  -- A SELECT that no row matched finds a row that is then inserted, if its test admits that.
  pub find_first-inserted :
      (missing : Error) (p : A → Bool) (scan : A → A) (xs : List A) (x : A)
      → any p xs ≡ false
      → p x ≡ true
      → find_first missing p scan none (xs ++ x ∷ []) ≡ returns (scan x)
  unfolding find_first
  find_first-inserted missing p scan xs x h k = rw (find_first, find?-append p xs x h k) refl

  -- SELECT … of all rows that a test admits, arranged, of which the caller gets what `scan` reads.
  unfoldable pub find_all :
      (A → Bool) → (List A → List A) → (A → A) → Option Error → List A → Outcome (List A)
  find_all p arrange scan (some e) xs = fails e
  find_all p arrange scan none xs = returns (map scan (arrange (keep p xs)))

  -- What holds of each row holds of each that a WHERE clause admits, and so does its test.
  pub keep-All-also {κ} :
      (P : A → Type κ) (p : A → Bool) (xs : List A)
      → All P xs
      → All (λ x. P x × (p x ≡ true)) (keep p xs)
  keep-All-also P p [] h = tt
  keep-All-also P p (x ∷ xs) (h, hs) = elim (Bool-cases (p x)) [
    | inl e ↦ rw e ((h, e), keep-All-also P p xs hs)
    | inr e ↦ rw e (keep-All-also P p xs hs)
  ]

  -- From what holds of each row before an UPDATE to what holds of each row after it.
  pub update_where-All {κ μ} :
      {P : A → Type κ} {Q : A → Type μ} (p : A → Bool) (f : A → A) (xs : List A)
      → All P xs
      → ((x : A) → p x ≡ true → P x → Q (f x))
      → ((x : A) → P x → Q x)
      → All Q (update_where p f xs)
  unfolding update_where
  update_where-All p f [] h k keeps = tt
  update_where-All p f (x ∷ xs) (h, hs) k keeps = elim (Bool-cases (p x)) [
    | inl e ↦ rw e (k x e h, update_where-All p f xs hs k keeps)
    | inr e ↦ rw e (keeps x h, update_where-All p f xs hs k keeps)
  ]

  -- What an UPDATE makes true of the rows that it changes holds of all rows that its test admits.
  pub update_where-updated {κ} :
      (Q : A → Type κ) (p : A → Bool) (f : A → A) (xs : List A)
      → ((x : A) → p x ≡ true → Q (f x))
      → All (λ y. p y ≡ true → Q y) (update_where p f xs)
  unfolding update_where
  update_where-updated Q p f [] k = tt
  update_where-updated Q p f (x ∷ xs) k = elim (Bool-cases (p x)) [
    | inl e ↦ rw e (λ _. k x e, update_where-updated Q p f xs k)
    | inr e ↦ rw e (λ h. absurd (no_true e h), update_where-updated Q p f xs k)
  ]

  -- A SELECT whose test an UPDATE does not change finds the same row, as the UPDATE leaves it.
  pub find?-update_where :
      (p q : A → Bool) (f : A → A) (xs : List A) (x : A)
      → find? p xs ≡ some x
      → ((y : A) → p (f y) ≡ p y)
      → find? p (update_where q f xs) ≡ some (if q x then f x else x)
  unfolding update_where
  find?-update_where p q f [] x h k = absurd (ground arith)
  find?-update_where p q f (y ∷ ys) x h k = ground (
    arith,
    k y,
    Bool-cases (p y),
    Bool-cases (q y),
    λ (e : find? p ys ≡ some x). find?-update_where p q f ys x e k,
  )

  -- After an UPDATE whose rows its own test no longer admits, the test admits no row.
  pub update_where-any :
      (p : A → Bool) (f : A → A) (xs : List A)
      → ((x : A) → p (f x) ≡ false)
      → any p (update_where p f xs) ≡ false
  unfolding update_where
  update_where-any p f [] k = refl
  update_where-any p f (x ∷ xs) k = elim (Bool-cases (p x)) [
    | inl e ↦ rw (e, k x) (update_where-any p f xs k)
    | inr e ↦ rw (e, e) (update_where-any p f xs k)
  ]

  -- A SELECT finds nothing where its test admits no row, and an UPDATE affects nothing.
  pub find_first-missing :
      (missing : Error) (p : A → Bool) (scan : A → A) (xs : List A)
      → any p xs ≡ false
      → find_first missing p scan none xs ≡ fails missing
  unfolding find_first
  find_first-missing missing p scan [] h = refl
  find_first-missing missing p scan (x ∷ xs) h = elim (Bool-cases (p x)) [
    | inl e ↦ absurd (ground (arith, e, h))
    | inr e ↦
        let rest : any p xs ≡ false = ground (arith, e, h) in
        rw (find_first, e) (find_first-missing missing p scan xs rest)
  ]

  -- What a SELECT returns has what every scanned row has.
  pub find_first-scanned {κ} :
      (P : A → Type κ) (missing : Error) (p : A → Bool) (scan : A → A) (fault : Option Error)
      (xs : List A) (y : A)
      → find_first missing p scan fault xs ≡ returns y
      → ((x : A) → P (scan x))
      → P y
  unfolding find_first
  find_first-scanned P missing p scan (some e) xs y h k = absurd (ground arith)
  find_first-scanned P missing p scan none xs y h k = elim (Option-cases (find? p xs)) [
    | inl e ↦ absurd (ground (arith, e))
    | inr (x, e) ↦ let scanned : scan x ≡ y = ground (arith, e, h) in subst P scanned (k x)
  ]

  find?-any :
      (p q : A → Bool) (xs : List A) (x : A) → find? p xs ≡ some x → q x ≡ true → any q xs ≡ true
  find?-any p q [] x h k = absurd (ground arith)
  find?-any p q (y ∷ ys) x h k = elim (Bool-cases (p y)) [
    | inl e ↦ let first : y ≡ x = ground (arith, e, h) in rw (first, k) refl
    | inr e ↦ ground (arith, e, find?-any p q ys x)
  ]

  -- An UPDATE of the row that a SELECT has returned affects a row.
  pub find_first-any :
      (missing : Error) (p : A → Bool) (scan : A → A) (fault : Option Error) (xs : List A) (y : A)
      (same : A → A → Bool)
      → find_first missing p scan fault xs ≡ returns y
      → ((x : A) → same (scan x) x ≡ true)
      → any (same y) xs ≡ true
  unfolding find_first
  find_first-any missing p scan (some e) xs y same h k = absurd (ground arith)
  find_first-any missing p scan none xs y same h k = elim (Option-cases (find? p xs)) [
    | inl e ↦ absurd (ground (arith, e))
    | inr (x, e) ↦
        let scanned : scan x ≡ y = ground (arith, e, h) in
        subst (λ z. any (same z) xs ≡ true) scanned (find?-any p (same (scan x)) xs x e (k x))
  ]
