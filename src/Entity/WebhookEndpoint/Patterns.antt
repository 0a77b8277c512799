-- ===== src/Entity/WebhookEndpoint/Patterns.antt =====
-- Which events WebhookEndpoint.ShouldReceiveEvent lets through.
use billing_simulator.Base.{
  ◌≡◌, refl, ap, inl, inr, ◌↔◌, true, some, List, [], ◌∷◌, ◌++◌, any, arith, Bool-cases,
  Option-cases,
}
use billing_simulator.Entity.WebhookEndpoint.{
  Bytes, WebhookEndpoint, star, same_bytes, has_prefix, before_star, prefix_matches, matches,
  should_receive_event,
}

-- A pattern names an event, or everything that begins with what stands before its last '*'.
pub data Matches (event pattern : Bytes) : Type 0 where
  exactly : pattern ≡ event → Matches event pattern
  prefixed :
      (prefix rest : Bytes)
      → pattern ≡ prefix ++ star ∷ []
      → event ≡ prefix ++ rest
      → Matches event pattern

pub data AnyMatches (event : Bytes) : List Bytes → Type 0 where
  here : {p : Bytes} {ps : List Bytes} → Matches event p → AnyMatches event (p ∷ ps)
  there : {p : Bytes} {ps : List Bytes} → AnyMatches event ps → AnyMatches event (p ∷ ps)

same_bytes-eq : (xs ys : Bytes) → same_bytes xs ys ≡ true → xs ≡ ys
unfolding same_bytes
same_bytes-eq [] [] h = refl
same_bytes-eq [] (y ∷ ys) h = cc
same_bytes-eq (x ∷ xs) [] h = cc
same_bytes-eq (x ∷ xs) (y ∷ ys) h = ground (arith, same_bytes-eq xs ys)

same_bytes_refl : (xs : Bytes) → same_bytes xs xs ≡ true
unfolding same_bytes
same_bytes_refl [] = refl
same_bytes_refl (x ∷ xs) = ground (arith, same_bytes_refl xs)

has_prefix-append : (xs ys : Bytes) → has_prefix xs (xs ++ ys) ≡ true
unfolding has_prefix
has_prefix-append [] ys = refl
has_prefix-append (x ∷ xs) ys = ground (arith, has_prefix-append xs ys)

has_prefix-split : (xs s : Bytes) → has_prefix xs s ≡ true → (rest : Bytes) × (s ≡ xs ++ rest)
unfolding has_prefix
has_prefix-split [] s h = (s, refl)
has_prefix-split (x ∷ xs) [] h = cc
has_prefix-split (x ∷ xs) (y ∷ ys) h =
    let rest = has_prefix-split xs ys (ground arith) in (rest.0, ground (arith, rest.1))

before_star-append : (xs : Bytes) → before_star (xs ++ star ∷ []) ≡ some xs
unfolding before_star
before_star-append [] = refl
before_star-append (x ∷ []) = refl
before_star-append (x ∷ y ∷ ys) = rw (before_star-append (y ∷ ys))

before_star-split : (p prefix : Bytes) → before_star p ≡ some prefix → p ≡ prefix ++ star ∷ []
unfolding before_star
before_star-split [] prefix h = cc
before_star-split (x ∷ []) prefix h = ground arith
before_star-split (x ∷ y ∷ ys) prefix h = elim (Option-cases (before_star (y ∷ ys))) [
  | inl e ↦ absurd (ground (arith, e))
  | inr (q, e) ↦
      let split = before_star-split (y ∷ ys) q e in
      let whole : prefix ≡ x ∷ q = ground (arith, e) in rw whole (ap (◌∷◌ x) split)
]

matches_sound : (event pattern : Bytes) → matches event pattern ≡ true → Matches event pattern
unfolding matches prefix_matches
matches_sound event pattern h = elim (Bool-cases (same_bytes pattern (star ∷ []))) [
  | inl e ↦ prefixed [] event (same_bytes-eq pattern (star ∷ []) e) refl
  | inr e ↦ elim (Bool-cases (same_bytes pattern event)) [
    | inl f ↦ exactly (same_bytes-eq pattern event f)
    | inr f ↦ elim (Option-cases (before_star pattern)) [
      | inl g ↦ absurd (ground (arith, e, f, g))
      | inr (q, g) ↦
          let split = has_prefix-split q event (ground (arith, e, f, g)) in
          prefixed q split.0 (before_star-split pattern q g) split.1
    ]
  ]
]

matches_complete : (event pattern : Bytes) → Matches event pattern → matches event pattern ≡ true
unfolding matches prefix_matches
matches_complete event pattern (exactly e) = rw e (ground (arith, same_bytes_refl event))
matches_complete event pattern (prefixed prefix rest e f) =
    rw (e, f) (ground (arith, before_star-append prefix, has_prefix-append prefix rest))

sound : (event : Bytes) (ps : List Bytes) → any (matches event) ps ≡ true → AnyMatches event ps
sound event [] h = absurd (ground arith)
sound event (p ∷ ps) h = elim (Bool-cases (matches event p)) [
  | inl e ↦ here (matches_sound event p e)
  | inr e ↦ there (sound event ps (ground (arith, e)))
]

complete : (event : Bytes) (ps : List Bytes) → AnyMatches event ps → any (matches event) ps ≡ true
complete event [] a = elim a [ ]
complete event (p ∷ ps) (here m) = ground (arith, matches_complete event p m)
complete event (p ∷ ps) (there a) = ground (arith, complete event ps a)

-- An endpoint should receive an event exactly when one of its patterns is the event's name, or
-- is a text with a '*' behind it with which the event's name begins; so "*" lets every event
-- through, and an endpoint without patterns receives none.
pub should_receive_event_iff :
    (e : WebhookEndpoint) (event : Bytes)
    → (should_receive_event e event ≡ true) ↔ AnyMatches event e.enabled_events
unfolding should_receive_event
should_receive_event_iff e event = (sound event e.enabled_events, complete event e.enabled_events)
