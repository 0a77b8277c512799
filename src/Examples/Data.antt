-- ===== src/Examples/Data.antt =====
-- The entities, tables and inputs of the examples.
use billing_simulator.Base.{
  zero, suc, ℕ, ◌+◌, ◌*◌, String, Bool, true, false, Option, none, some, [], ◌∷◌, pos, day,
}
use billing_simulator.Entity.Errors.{Outcome, returns, fails, pg_error}
use billing_simulator.Entity.Status
use billing_simulator.Entity.Status.{open_, paid, pending, active, requires_capture}
use billing_simulator.Entity.Aggregate.{Draw, no_events}
use billing_simulator.Entity.Invoice.{Invoice}
use billing_simulator.Entity.PaymentIntent.{PaymentIntent}
use billing_simulator.Entity.Price.{Price}
use billing_simulator.Entity.Subscription.{Subscription}
use billing_simulator.Entity.WebhookLog.{WebhookLog}
use billing_simulator.Entity.WebhookEndpoint.{WebhookEndpoint, star}
use billing_simulator.Repository.Database.{Database}
use billing_simulator.Platform.Transaction.{Weather, accepted}
use billing_simulator.Service.Call.{Meets}
use billing_simulator.Service.EventDispatcher.{Dto}
use billing_simulator.Worker.WebhookRetry

abbrev pub draw : Draw
draw = record { uuid = 7; bytes = some (1 ∷ 2 ∷ 3 ∷ 4 ∷ 5 ∷ 6 ∷ 7 ∷ 8 ∷ []) }

abbrev pub invoice : Invoice
invoice = record {
  id = 20;
  public_id = "inv_20";
  subscription_id = some 10;
  subscription_public_id = none;
  customer_id = 1;
  customer_public_id = "";
  amount = pos 500;
  amount_paid = pos 0;
  amount_remaining = pos 500;
  currency = "usd";
  status = open_;
  period_start = none;
  period_end = none;
  due_date = none;
  attempt_count = 0;
  attempted_at = none;
  deleted_at = none;
  created_at = 100;
  updated_at = 100;
  root = no_events;
}

abbrev pub paid_invoice : Invoice
paid_invoice = record invoice { amount_paid = pos 500; amount_remaining = pos 0; status = paid }

abbrev pub intent : PaymentIntent
intent = record {
  id = 30;
  public_id = "pi_30";
  invoice_id = some 20;
  customer_id = 1;
  amount = pos 500;
  amount_captured = pos 100;
  currency = "usd";
  status = requires_capture;
  last_payment_error = none;
  deleted_at = none;
  created_at = 100;
  updated_at = 100;
  root = no_events;
}

abbrev pub price : Price
price = record {
  id = 40;
  public_id = "price_40";
  product_id = 50;
  amount = pos 500;
  currency = "usd";
  interval = Status.day;
  interval_count = pos 30;
  active = true;
  deleted_at = none;
  created_at = 100;
  updated_at = 100;
  root = no_events;
}

abbrev pub subscription : Subscription
subscription = record {
  id = 10;
  public_id = "sub_10";
  customer_id = 1;
  customer_public_id = "";
  price_id = 40;
  price_public_id = "";
  status = active;
  current_period_start = 100 * day;
  current_period_end = 130 * day;
  next_billing_at = 130 * day;
  trial_start = none;
  trial_end = none;
  canceled_at = none;
  at_period_end = false;
  deleted_at = none;
  created_at = 100 * day;
  updated_at = 100 * day;
  root = no_events;
}

abbrev pub database : Database
database = record {
  customers = [];
  prices = price ∷ [];
  subscriptions = subscription ∷ [];
  invoices = invoice ∷ [];
  payment_intents = intent ∷ [];
  outbox = [];
}

-- Nothing fails, and payments succeed or not.
abbrev pub meets : Bool → Meets
meets lucky = record {
  fault = λ k. none;
  clock = λ k. 135 * day;
  draw = λ k. draw;
  event_id = λ k. 60 + k;
  forced = none;
  lucky = lucky;
}

abbrev pub marshal : Dto → Option String
marshal dto = some "{}"

abbrev pub calm : ℕ → Weather
calm i = record { begin = none; commit = accepted; roll = 12345; canceled = none }

-- A function that meets a deadlock at its first attempt, and then counts.
abbrev pub deadlock_once : ℕ → ℕ → Outcome (String × ℕ)
deadlock_once (suc zero) n = fails (pg_error "40P01")
deadlock_once i n = returns ("done", n + i)

abbrev pub log : WebhookLog
log = record {
  id = 70;
  public_id = "wh_70";
  event_id = 71;
  endpoint_id = 80;
  trace_id = 72;
  event_type = "invoice.paid";
  payload = "{}";
  target_url = "https://example.com";
  status = pending;
  response_code = none;
  response_body = "";
  attempt = 2;
  max_attempts = 5;
  error_message = none;
  next_attempt_at = 100;
  delivered_at = none;
  created_at = 100;
  updated_at = 100;
}

abbrev pub endpoint : WebhookEndpoint
endpoint = record {
  id = 80;
  public_id = "we_80";
  customer_id = 1;
  url = "https://example.com";
  description = "";
  secret_prefix = "";
  secret_encrypted = "";
  secret = "";
  enabled_events = (b'a' ∷ b'.' ∷ star ∷ []) ∷ [];
  enabled = true;
  deleted_at = none;
  created_at = 100;
  updated_at = 100;
}

abbrev pub answers : ℕ → WebhookRetry.Meets
answers code = record {
  clock = 300;
  endpoint = returns endpoint;
  response = returns code;
  fault = none;
}
