-- ===== src/Worker/Outbox/Routing.antt =====
-- From the dispatcher to the customer: what internal/service/event_dispatcher.go puts into the outbox
-- is read by internal/worker/outbox_worker.go, handed to internal/service/notification.go, and sent by
-- internal/transport/kafka/event_sender.go.
use billing_simulator.Base.{
  ◌≡◌, refl, ◌∙◌, String, ◌<>◌, true, false, Option, some, List, [], ◌∷◌, ◌++◌, ◌⊎◌, inr, Time,
  str_eq,
}
use billing_simulator.Entity.Errors.{Error}
use billing_simulator.Entity.Status.{event_name}
use billing_simulator.Entity.Events.{Uuid, DomainEvent, event_type}
use billing_simulator.Entity.Outbox.{new_outbox_event}
use billing_simulator.Service.EventDispatcher.{Dto, uuid, to_dto}
use billing_simulator.Service.EventDispatcher.Customers.{
  customer_of, field_of, forwarded_events_name_their_customer,
}
use billing_simulator.Service.Notification.{is_forwarded, multi_error, handle_domain_event}
use billing_simulator.Transport.KafkaSender.{partition_key}
use billing_simulator.Worker.Outbox.{
  Answers, Handled, handle_event, handle_for, extract_customer_id,
}

forwarded_is_sent :
    (a : Answers) (c : Uuid) (name p : String)
    → is_forwarded name ≡ true
    → handle_domain_event a.kafka a.webhook name c p ≡ (
      some (record { topic = "billing." <> name; customer_id = c; event_type = name; payload = p }),
      multi_error a.kafka a.webhook,
    )
unfolding handle_domain_event
forwarded_is_sent a c name p h = rw h refl

-- What the two readings of a payload find of the customer that json.Marshal has written into it: the
-- UUID, and its text, which is not empty.
pub record ReadsCustomers (marshal : Dto → Option String) (unmarshal : String → Error ⊎ Option Uuid)
    (probe : String → Option String) (uuid_text : Uuid → String) : Type 0 where
  pub read_uuid :
      (d : Dto) (p : String) (id : Uuid)
      → marshal d ≡ some p
      → field_of "customer_id" d ≡ some (uuid id)
      → unmarshal p ≡ inr (some id)
  pub read_text :
      (d : Dto) (p : String) (id : Uuid)
      → marshal d ≡ some p
      → field_of "customer_id" d ≡ some (uuid id)
      → probe p ≡ some (uuid_text id)
  pub text_is_some : (id : Uuid) → str_eq (uuid_text id) "" ≡ false

module _ (marshal : Dto → Option String) (unmarshal : String → Error ⊎ Option Uuid)
    (probe : String → Option String) (uuid_text : Uuid → String) (error_text : Error → String) where
  -- An event of a type that is forwarded, and its customer, once it stands in the outbox under what
  -- json.Marshal has made of it: the worker hands it to HandleDomainEvent for that customer, which
  -- sends the payload to the topic of its type and to the webhooks of the customer. The Kafka message
  -- has the text of the customer's UUID for its key, whatever would be drawn otherwise, so all such
  -- events of one customer have one key.
  pub dispatched_event-reaches :
      ReadsCustomers marshal unmarshal probe uuid_text
      → (a : Answers) (id c : Uuid) (e : DomainEvent) (now : Time) (p drawn : String)
        (log : List Handled)
      → is_forwarded (event_name (event_type e)) ≡ true
      → customer_of e ≡ some c
      → marshal (to_dto e) ≡ some p
      → ((handle_event unmarshal error_text a (new_outbox_event id e now p) log).1
          ≡ log
            ++ record {
              event = new_outbox_event id e now p;
              customer = c;
              sent = some (record {
                topic = "billing." <> event_name (event_type e);
                customer_id = c;
                event_type = event_name (event_type e);
                payload = p;
              });
              error = multi_error a.kafka a.webhook;
            }
              ∷ [])
        × (partition_key probe drawn p ≡ uuid_text c)
  unfolding handle_event handle_for extract_customer_id new_outbox_event partition_key
  dispatched_event-reaches laws a id c e now p drawn log forwarded mine made =
      let named : field_of "customer_id" (to_dto e) ≡ some (uuid c) =
        forwarded_events_name_their_customer e ∙ rw (forwarded, mine) refl in
      (
        rw
            (
              laws.read_uuid (to_dto e) p c made named,
              forwarded_is_sent a c (event_name (event_type e)) p forwarded,
            )
            refl,
        rw (laws.read_text (to_dto e) p c made named, laws.text_is_some c) refl,
      )
