-- ===== src/Examples/Workers.antt =====
-- The theorems on the workers of the outbox, of overdue invoices and of the cleanup, at concrete tables.
use billing_simulator.Base.{
  ℕ, ◌≡◌, ◌≢◌, refl, subst, ◌*◌, String, Bool, true, false, Option, none, some, List, [], ◌∷◌, ◌==◌,
  ◌⊎◌, inr, length, All, day, arith, str_eq, if◌then◌else◌,
}
use billing_simulator.Entity.Errors.{returns, Error}
use billing_simulator.Entity.Status.{event_name}
use billing_simulator.Entity.Events.{Uuid, DomainEvent, event_type, customer_was_created}
use billing_simulator.Entity.Aggregate.{raise_event}
use billing_simulator.Entity.Outbox.{OutboxEvent, new_outbox_event}
use billing_simulator.Repository.Outbox.{get_unprocessed}
use billing_simulator.Repository.Table.{update_where}
use billing_simulator.Service.EventDispatcher.{Dto, Field, uuid, to_dto}
use billing_simulator.Service.EventDispatcher.Customers.{field_of}
use billing_simulator.Service.Notification.{is_forwarded, multi_error}
use billing_simulator.Transport.KafkaSender.{partition_key}
use billing_simulator.Worker.Outbox.Rounds.{Runs, process_outbox_batch-Runs}
use billing_simulator.Worker.Outbox.Routing.{ReadsCustomers, dispatched_event-reaches}
use billing_simulator.Worker.Outbox.{
  process_outbox_batch, mark, Answers, Handled, default_outbox_config, handle_event,
}
use billing_simulator.Worker.Outbox.Workers.{waits, was_accepted}
use billing_simulator.Worker.Outbox.Memory.{memory, memory-IsLawful, is_processed_row}
use billing_simulator.Worker.Outbox.Delivery.{IsForItsCustomer, processed_were_accepted}
use billing_simulator.Worker.InvoiceDue.{Lookup, default_due_config}
use billing_simulator.Worker.InvoiceDue.Overdue.{FindsByInvoice, Misses}
use billing_simulator.Worker.Ticker.Due.{Round, start_due, start_due_marks_nothing}
use billing_simulator.Worker.Ticker.{tick, stop_requested, crashed, stopped, end_of}
use billing_simulator.Worker.Cleanup.{start}
use billing_simulator.Worker.Cleanup.Outbox.{
  Table, outbox_cleanup, waiting_events, cleanup-keeps_waiting,
}
use billing_simulator.Examples.Data.{invoice, subscription}

abbrev event : OutboxEvent
event = record {
  id = 60;
  event_type = "invoice.paid";
  aggregate_id = 20;
  aggregate_type = "invoice";
  payload = "1";
  occurred_at = 100;
  processed = false;
  processed_at = none;
  attempt = 0;
  next_attempt_at = none;
  error = none;
  created_at = 100;
}

-- A payload is the name of a customer.
abbrev unmarshal : String → Error ⊎ Option Uuid
unmarshal p = if str_eq p "1" then inr (some 1) else inr none

abbrev error_text : Error → String
error_text e = "error"

abbrev answers : Answers
answers = record { kafka = none; webhook = none }

-- A round of a worker that finds one event.
abbrev round : List Handled × List OutboxEvent
round =
    process_outbox_batch unmarshal error_text (memory 200) default_outbox_config (λ n. false)
      (λ n. answers) ([], event ∷ [])

abbrev Sends : List Handled × List OutboxEvent → Type 0
Sends (log, rows) = (length log ≡ 1) × (is_processed_row 60 rows ≡ true)

round_test : Sends round
unfolding process_outbox_batch mark get_unprocessed update_where
round_test = (refl, refl)

processed_were_accepted_example :
    ((id : Uuid)
      → is_processed_row id round.1 ≡ true
      → is_processed_row id (event ∷ []) ≡ false
      → was_accepted id round.0 ≡ true)
    × All (IsForItsCustomer unmarshal error_text) round.0
processed_were_accepted_example =
    processed_were_accepted unmarshal error_text (memory 200) default_outbox_config is_processed_row
      (memory-IsLawful 200) (event ∷ []) (record { store = round.1; log = round.0; stage = run.0 })
      run.1
  where
    run :
        Runs unmarshal error_text
          (memory 200)
          default_outbox_config
          (λ k. waits)
          ([], event ∷ [])
          round
    run =
        process_outbox_batch-Runs unmarshal error_text (memory 200) default_outbox_config
          (λ n. false) (λ n. answers) 0 (λ k. waits) ([], event ∷ []) refl

abbrev created : DomainEvent
created = customer_was_created (record {
  customer_id = 1;
  customer_public_id = "cus_1";
  email = "a@b.c";
  name = "A";
  at = 100;
})

-- A payload of a customer other than the first is not written.
abbrev name_customer : Option Field → Option String
name_customer (some (uuid id)) = if id == 1 then some "1" else none
name_customer _ = none

abbrev marshal : Dto → Option String
marshal d = name_customer (field_of "customer_id" d)

abbrev probe : String → Option String
probe p = some "1"

abbrev uuid_text : Uuid → String
uuid_text id = "1"

first_customer :
    (o : Option Field) (p : String) (id : Uuid)
    → name_customer o ≡ some p
    → o ≡ some (uuid id)
    → (p ≡ "1") × (id ≡ 1)
first_customer none p id h k = absurd (ground (arith, k))
first_customer (some f) p id h k =
    let mine : name_customer (some (uuid id)) ≡ some p =
      subst (λ o. name_customer o ≡ some p) k h in
    ground (arith, mine)

read_first : (p : String) (id : Uuid) → (p ≡ "1") × (id ≡ 1) → unmarshal p ≡ inr (some id)
read_first p id (h, k) = rw (h, k) refl

reads_customers : ReadsCustomers marshal unmarshal probe uuid_text
reads_customers = record {
  read_uuid = λ d p id h k. read_first p id (first_customer (field_of "customer_id" d) p id h k);
  read_text = λ d p id h k. refl;
  text_is_some = λ id. refl;
}

forwarded_test : is_forwarded (event_name (event_type created)) ≡ true
unfolding is_forwarded event_name event_type
forwarded_test = refl

written_test : marshal (to_dto created) ≡ some "1"
unfolding to_dto field_of
written_test = refl

dispatched_event-reaches_example :
    ((handle_event unmarshal error_text answers (new_outbox_event 60 created 100 "1") []).1
      ≡ record {
        event = new_outbox_event 60 created 100 "1";
        customer = 1;
        sent = some (record {
          topic = "billing.customer.created";
          customer_id = 1;
          event_type = "customer.created";
          payload = "1";
        });
        error = none;
      }
        ∷ [])
    × (partition_key probe "drawn" "1" ≡ "1")
unfolding event_name event_type multi_error
dispatched_event-reaches_example =
    dispatched_event-reaches marshal unmarshal probe uuid_text error_text reads_customers answers 60
      1 created 100 "1" "drawn" [] forwarded_test refl written_test

-- A lookup that knows the subscription of one invoice.
abbrev lookup : Lookup
lookup id subs = if id == 20 then returns (some subscription) else returns none

lookup-FindsByInvoice : FindsByInvoice lookup (invoice ∷ [])
lookup-FindsByInvoice id subs h = misses (id == 20) (ground (arith, h))
  where
    misses :
        (b : Bool) → b ≡ false → Misses (if b then returns (some subscription) else returns none)
    misses true h = absurd (ground (arith, h))
    misses false h = tt

-- Each round finds one overdue invoice; the update of its subscription would not fail.
abbrev overdue_rounds : ℕ → Round
overdue_rounds n = record {
  at = 300;
  failure = none;
  clock = λ k. 300;
  fault = λ k. none;
  invoices = record invoice { due_date = some 200 } ∷ [];
}

start_due_marks_nothing_example :
    start_due raise_event lookup default_due_config overdue_rounds
      (tick ∷ tick ∷ stop_requested ∷ [])
      (subscription ∷ [])
    ≡ (stopped, subscription ∷ [])
unfolding end_of
start_due_marks_nothing_example =
    start_due_marks_nothing raise_event lookup default_due_config overdue_rounds
      (tick ∷ tick ∷ stop_requested ∷ []) (subscription ∷ []) (λ n. lookup-FindsByInvoice)
      λ n. (refl, tt)

abbrev table : Table
table = record {
  rows = event ∷ record event { id = 61; processed = true; processed_at = some 50 } ∷ [];
  statements = λ n. (2 * day, none);
  made = 0;
}

cleanup-keeps_waiting_example :
    (waiting_events (start outbox_cleanup (tick ∷ tick ∷ stop_requested ∷ []) [] table).2.rows
      ≡ event ∷ [])
    × ((start outbox_cleanup (tick ∷ tick ∷ stop_requested ∷ []) [] table).0 ≢ crashed)
cleanup-keeps_waiting_example = cleanup-keeps_waiting (tick ∷ tick ∷ stop_requested ∷ []) [] table
