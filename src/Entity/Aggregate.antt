-- ===== src/Entity/Aggregate.antt =====
-- internal/entity/aggregate.go, domain_event.go and id.go: the list of events that an aggregate
-- has raised, and the public identifiers.
--
-- AggregateRoot.Raise calls itself, where it was meant to call the Raise of its list. So the
-- operations of the aggregates take the function that `x.Raise(e)` runs as an argument, `Raise`.
-- `raise_root` is what the sources run today, and `raise_event` what they run
-- where they write `x.domainEvents.Raise(e)`.
use billing_simulator.Base.{
  ℕ, zero, suc, ◌/◌, ◌%◌, ◌≡◌, refl, String, ◌<>◌, Bool, true, false, Option, none, some, List, [],
  ◌∷◌, ◌++◌,
}
use billing_simulator.Entity.Errors.{Outcome, returns, fails, overflows, message}
use billing_simulator.Entity.Events.{DomainEvent, Uuid}

-- The struct AggregateRoot is its one field, the list DomainEvents; nil is the empty list.
pub record AggregateRoot : Type 0 where
  pub domain_events : List DomainEvent

abbrev pub Raise : Type 0
Raise = AggregateRoot → DomainEvent → Outcome AggregateRoot

abbrev pub no_events : AggregateRoot
no_events = record { domain_events = [] }

-- `AggregateRoot.Raise` over a stack that has room for so many more frames.
unfoldable pub raise_root : ℕ → Raise
raise_root zero a event = overflows
raise_root (suc frames) a event = raise_root frames a event

-- `DomainEvents.Raise`
unfoldable pub raise_event : Raise
raise_event a event = returns (record { domain_events = a.domain_events ++ event ∷ [] })

-- `DomainEvents.ClearAndReturn`, and so `GetAndClearEvents` of each aggregate
unfoldable pub clear_and_return : AggregateRoot → List DomainEvent × AggregateRoot
clear_and_return a = (a.domain_events, no_events)

-- `DomainEvents.HasEvents`
unfoldable pub has_events : List DomainEvent → Bool
has_events [] = false
has_events (_ ∷ _) = true

-- Whatever room the stack has, `AggregateRoot.Raise` uses it up.
pub raise_root-overflows :
    (frames : ℕ) (a : AggregateRoot) (event : DomainEvent) → raise_root frames a event ≡ overflows
unfolding raise_root
raise_root-overflows zero a event = refl
raise_root-overflows (suc frames) a event = raise_root-overflows frames a event

-- What a constructor draws: `uuid.New()`, and the eight bytes of `rand.Read`, or its error.
pub record Draw : Type 0 where
  pub uuid : Uuid
  pub bytes : Option (List ℕ)

hex_digit : ℕ → String
hex_digit n = digit n (
    "0" ∷ "1" ∷ "2" ∷ "3" ∷ "4" ∷ "5" ∷ "6" ∷ "7" ∷ "8" ∷ "9" ∷ "a" ∷ "b" ∷ "c" ∷ "d" ∷ "e" ∷ "f"
    ∷ [])
  where
    digit : ℕ → List String → String
    digit n [] = ""
    digit zero (d ∷ ds) = d
    digit (suc n) (d ∷ ds) = digit n ds

-- `hex.EncodeToString`
unfoldable pub encode_hex : List ℕ → String
unfolding hex_digit
encode_hex [] = ""
encode_hex (b ∷ bs) = hex_digit (b / 16) <> (hex_digit (b % 16) <> encode_hex bs)

-- `GeneratePublicID`
unfoldable pub generate_public_id : String → Draw → Outcome String
unfolding encode_hex
generate_public_id prefix d = elim d.bytes [
  | none ↦ fails (message "generate public id")
  | some b ↦ returns (prefix <> ("_" <> encode_hex b))
]
