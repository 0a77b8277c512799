-- ===== src/Entity/WebhookEndpoint.antt =====
-- internal/entity/webhook_endpoint.go: where the events of a customer are sent. A text that the
-- code walks byte by byte is the list of its bytes here.
pub mod Patterns
use billing_simulator.Base.{
  ℕ, suc, zero, ◌+◌, ◌/◌, ◌%◌, String, ◌<>◌, Bool, true, false, ◌&&◌, ◌||◌, Option, none, some,
  List, [], ◌∷◌, Time, ◌==◌, any, if◌then◌else◌,
}
use billing_simulator.Entity.Errors.{Outcome, returns, ◌>>=◌}
use billing_simulator.Entity.Events.{Uuid}
use billing_simulator.Entity.Aggregate.{Draw, generate_public_id}

abbrev pub Bytes : Type 0
Bytes = List ℕ

pub record WebhookEndpoint : Type 0 where
  pub id : Uuid
  pub public_id : String
  pub customer_id : Uuid
  pub url : String
  pub description : String
  pub secret_prefix : String
  pub secret_encrypted : String
  pub secret : String
  pub enabled_events : List Bytes
  pub enabled : Bool
  pub deleted_at : Option Time
  pub created_at : Time
  pub updated_at : Time

-- The byte '*'.
abbrev pub star : ℕ
star = b'*'

-- `NewWebhookEndpoint`
unfoldable pub new_webhook_endpoint :
    Draw → Uuid → Time → String → String → String → Outcome WebhookEndpoint
unfolding generate_public_id
new_webhook_endpoint d customer now url secret_prefix secret = do
  public ← generate_public_id "we" d
  returns (record {
    id = d.uuid;
    public_id = public;
    customer_id = customer;
    url = url;
    description = "";
    secret_prefix = secret_prefix;
    secret_encrypted = "";
    secret = secret;
    enabled_events = (star ∷ []) ∷ [];
    enabled = true;
    deleted_at = none;
    created_at = now;
    updated_at = now;
  })

-- `==` on texts
unfoldable pub same_bytes : Bytes → Bytes → Bool
same_bytes [] [] = true
same_bytes (x ∷ xs) (y ∷ ys) = x == y && same_bytes xs ys
same_bytes _ _ = false

-- `len(s) >= len(prefix) && s[:len(prefix)] == prefix`
unfoldable pub has_prefix : Bytes → Bytes → Bool
has_prefix [] s = true
has_prefix (x ∷ xs) [] = false
has_prefix (x ∷ xs) (y ∷ ys) = x == y && has_prefix xs ys

-- What stands before a last '*', if the text ends in one.
prepend : ℕ → Option Bytes → Option Bytes
prepend x none = none
prepend x (some xs) = some (x ∷ xs)

unfoldable pub before_star : Bytes → Option Bytes
unfolding prepend
before_star [] = none
before_star (x ∷ []) = if x == star then some [] else none
before_star (x ∷ y ∷ ys) = prepend x (before_star (y ∷ ys))

prefix_matches : Option Bytes → Bytes → Bool
prefix_matches none event = false
prefix_matches (some prefix) event = has_prefix prefix event

-- One round of the loop of `ShouldReceiveEvent`
unfoldable pub matches : Bytes → Bytes → Bool
unfolding prefix_matches same_bytes before_star has_prefix
matches event pattern =
    (same_bytes pattern (star ∷ []) || same_bytes pattern event)
    || prefix_matches (before_star pattern) event

-- `ShouldReceiveEvent`
unfoldable pub should_receive_event : WebhookEndpoint → Bytes → Bool
unfolding matches
should_receive_event e event = any (matches event) e.enabled_events

-- `SignPayload`, over HMAC-SHA-256 with its result in hex, and the decimal text of the time
unfoldable pub sign_payload :
    (String → String → String) → (ℕ → String) → WebhookEndpoint → String → ℕ → String
sign_payload hmac decimal e payload timestamp =
    "t=" <> (decimal timestamp <> (",v1=" <> hmac e.secret (decimal timestamp <> ("." <> payload))))
