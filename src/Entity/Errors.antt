-- ===== src/Entity/Errors.antt =====
-- The errors that the program tells apart: the sentinels of internal/entity/errors.go and of
-- pkg/storage/postgres/transaction/errors.go, the driver's, and those of the standard library.
-- `fmt.Errorf` with `%w` keeps what `errors.Is` and `errors.As` find, so a wrapped error is the
-- error itself here.
use Prim.Native.String.{String}
use mathlib.Core.Bool.{Bool, true, false}

pub data Error : Type 0 where
  data_not_found conflicting_data invalid_data internal_error : Error
  customer_not_found product_not_found price_not_found invalid_price : Error
  subscription_not_found subscription_already_canceled : Error
  subscription_not_active subscription_unpaid : Error
  invoice_not_found invoice_already_paid invoice_not_payable : Error
  payment_intent_not_found invalid_capture_amount : Error
  webhook_endpoint_not_found webhook_endpoint_disabled : Error
  transaction_timeout transaction_conflicting_data transaction_invalid_data : Error
  -- a `pgconn.PgError` with its code
  pg_error : String → Error
  -- `context.DeadlineExceeded`, `context.Canceled`, `pgx.ErrTxClosed`, `pgx.ErrNoRows`
  deadline_exceeded context_canceled tx_closed no_rows : Error
  -- an `errors.New` or `fmt.Errorf` with no sentinel inside
  message : String → Error

-- How a call ends: with a value, with an error, with a run-time panic, or, where the goroutine's
-- stack is used up, with the end of the process.
pub data Outcome {ℓ} (A : Type ℓ) : Type ℓ where
  returns : A → Outcome A
  fails : Error → Outcome A
  panics : Outcome A
  overflows : Outcome A

infixl 5 ◌>>=◌ ◌>>◌
abbrev pub ◌>>=◌ {ℓ κ} : {A : Type ℓ} {B : Type κ} → Outcome A → (A → Outcome B) → Outcome B
returns a >>= f = f a
fails e >>= f = fails e
panics >>= f = panics
overflows >>= f = overflows

abbrev pub ◌>>◌ {ℓ} : {B : Type ℓ} → Outcome (Unit {0}) → Outcome B → Outcome B
m >> k = m >>= λ _. k

-- The call returns, and its value has the property.
abbrev pub Ensures {ℓ} : {A : Type ℓ} → Outcome A → (A → Type 0) → Type 0
Ensures (returns a) P = P a
Ensures (fails _) P = ⊥
Ensures panics P = ⊥
Ensures overflows P = ⊥

abbrev pub is_returned {ℓ} : {A : Type ℓ} → Outcome A → Bool
is_returned (returns _) = true
is_returned _ = false

-- A chain ensures what its last call does, from what the first one does.
pub Ensures->>= {ℓ κ} :
    {A : Type ℓ} {B : Type κ} (P : A → Type 0) (Q : B → Type 0) (m : Outcome A) (f : A → Outcome B)
    → Ensures m P
    → ((a : A) → P a → Ensures (f a) Q)
    → Ensures (m >>= f) Q
Ensures->>= P Q (returns a) f h k = k a h
Ensures->>= P Q (fails e) f h k = absurd h
Ensures->>= P Q panics f h k = absurd h
Ensures->>= P Q overflows f h k = absurd h

pub Ensures-mono {ℓ} :
    {A : Type ℓ} (P Q : A → Type 0) (m : Outcome A)
    → Ensures m P
    → ((a : A) → P a → Q a)
    → Ensures m Q
Ensures-mono P Q (returns a) h k = k a h
Ensures-mono P Q (fails e) h k = absurd h
Ensures-mono P Q panics h k = absurd h
Ensures-mono P Q overflows h k = absurd h
