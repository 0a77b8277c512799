-- ===== src/Repository/Cache/Laws.antt =====
-- internal/repository/cache.go: what a batch leaves under its keys.
use billing_simulator.Base.{
  ◌≡◌, refl, ap, ◌∙◌, String, Bool, true, false, ◌||◌, any, Option, none, some, List, [], ◌∷◌, All,
  arith, str_eq, str_eq_refl,
}
use billing_simulator.Entity.Errors.{Outcome, returns, fails, panics, overflows, Error, ◌>>=◌}
use billing_simulator.Repository.Table.Sorted.{OnReturn}
use billing_simulator.Repository.Cache.{Redis, put, set_batch, pipeline, put_all, get_value, read}

OnReturn->>= :
    {A B : Type 0} (P : A → Type 0) (Q : B → Type 0) (m : Outcome A) (f : A → Outcome B)
    → OnReturn m P
    → ((a : A) → m ≡ returns a → P a → OnReturn (f a) Q)
    → OnReturn (m >>= f) Q
OnReturn->>= P Q (returns a) f h k = k a refl h
OnReturn->>= P Q (fails e) f h k = tt
OnReturn->>= P Q panics f h k = absurd h
OnReturn->>= P Q overflows f h k = absurd h

put_self : (key : String) (v : Option String) (redis : Redis) → put key v redis key ≡ v
unfolding put
put_self key v redis = rw (str_eq_refl key) refl

put_other :
    (key other : String) (v : Option String) (redis : Redis)
    → str_eq key other ≡ false
    → put key v redis other ≡ redis other
unfolding put
put_other key other v redis h = rw h refl

either_false : (a b : Bool) → (a || b) ≡ false → (a ≡ false) × (b ≡ false)
either_false true b h = absurd (ground (arith, h))
either_false false b h = (refl, h)

module _ {V : Type 0} (marshal : V → Outcome String) (unmarshal : String → Outcome V) where
  abbrev pub has_key : String → List (String × V) → Bool
  has_key key items = any (λ item. str_eq item.0 key) items

  -- No two items have one key.
  abbrev pub Distinct : List (String × V) → Type 0
  Distinct [] = Unit
  Distinct ((key, v) ∷ items) = (has_key key items ≡ false) × Distinct items

  -- Get reads each item under its key, and every other key is as it was.
  abbrev pub Stored : List (String × V) → Redis → Redis → Type 0
  Stored items before redis =
      All (λ item. get_value marshal unmarshal item.0 none redis ≡ returns item.1) items
      × ((key : String) → has_key key items ≡ false → redis key ≡ before key)

  module _ (calm : (v : V) → OnReturn (marshal v) (λ text. unmarshal text ≡ returns v)) where
    Writes : List (String × V) → List (String × String) → Type 0
    Writes items commands = (redis : Redis) → Stored items redis (put_all commands redis)

    stored :
        (items : List (String × V)) (commands : List (String × String)) (redis : Redis)
        → Writes items commands
        → Stored items redis (put_all commands redis)
    unfolding Writes
    stored items commands redis h = h redis

    add_item :
        (key : String) (v : V) (text : String) (items : List (String × V))
        (commands : List (String × String))
        → unmarshal text ≡ returns v
        → has_key key items ≡ false
        → Writes items commands
        → Writes ((key, v) ∷ items) ((key, text) ∷ commands)
    unfolding put_all get_value Writes
    add_item key v text items commands read_back new h redis =
        let (rest, others) = h (put key (some text) redis) in
        (
          (ap read_at (others key new ∙ put_self key (some text) redis) ∙ read_back, rest),
          λ other q.
              others other (either_false (str_eq key other) (has_key other items) q).1
              ∙ put_other key other (some text) redis
                  (either_false (str_eq key other) (has_key other items) q).0,
        )
      where
        read_at : Option String → Outcome V
        read_at o = read marshal unmarshal o

    pipeline-Writes :
        (items : List (String × V))
        → Distinct items
        → OnReturn (pipeline marshal unmarshal items) (Writes items)
    unfolding pipeline Writes put_all
    pipeline-Writes [] h = λ redis. (tt, λ key q. refl)
    pipeline-Writes ((key, v) ∷ items) (new, h) =
        OnReturn->>= (λ text. unmarshal text ≡ returns v) (Writes ((key, v) ∷ items)) (marshal v)
          (λ text.
            pipeline marshal unmarshal items >>= (λ commands. returns ((key, text) ∷ commands)))
          (calm v)
          λ text made read_back.
            OnReturn->>= (Writes items) (Writes ((key, v) ∷ items))
              (pipeline marshal unmarshal items) (λ commands. returns ((key, text) ∷ commands))
              (pipeline-Writes items h)
              λ commands found writes. add_item key v text items commands read_back new writes

  -- SetBatch, over a JSON that reads back what it has written: it fails, or Get then finds each item
  -- of the batch under its key, and every other key holds what it did.
  pub set_batch-Stored :
      (items : List (String × V)) (fault : Option Error) (redis : Redis)
      → ((v : V) → OnReturn (marshal v) (λ text. unmarshal text ≡ returns v))
      → Distinct items
      → OnReturn (set_batch marshal unmarshal items fault redis) (Stored items redis)
  unfolding set_batch
  set_batch-Stored items (some e) redis calm h =
      OnReturn->>= (Writes calm items) (Stored items redis) (pipeline marshal unmarshal items)
        (λ _. fails e) (pipeline-Writes calm items h) (λ commands found writes. tt)
  set_batch-Stored items none redis calm h =
      OnReturn->>= (Writes calm items) (Stored items redis) (pipeline marshal unmarshal items)
        (λ commands. returns (put_all commands redis)) (pipeline-Writes calm items h)
        λ commands found writes. stored calm items commands redis writes
