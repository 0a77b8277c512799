-- ===== src/Transport/KafkaSender.antt =====
-- internal/transport/kafka/event_sender.go: the sender of NotificationService over a Kafka producer.
-- json.Unmarshal, which looks for the customer in a payload, and uuid.NewString are arguments.
use billing_simulator.Base.{String, Option, none, some, List, str_eq, if◌then◌else◌}
use billing_simulator.Entity.Errors.{Error}

-- What `SendToTopic` of the producer gets.
pub record KafkaMessage : Type 0 where
  pub topic : String
  pub key : String
  pub value : String
  pub headers : List (String × String)

module _ (probe : String → Option String) where
  or_random : String → Option String → String
  or_random drawn none = drawn
  or_random drawn (some customer) = if str_eq customer "" then drawn else customer

  -- `partitionKey`, with the UUID that it would draw
  unfoldable pub partition_key : String → String → String
  unfolding or_random
  partition_key drawn payload = or_random drawn (probe payload)

  -- `Send`: the message, with the headers in the order in which the map gives them, and the answer
  -- of the producer, whose error is wrapped.
  unfoldable pub send_event :
      String → Option Error → String → String → List (String × String) → KafkaMessage × Option Error
  unfolding partition_key
  send_event drawn answer topic payload headers = (
    record { topic = topic; key = partition_key drawn payload; value = payload; headers = headers },
    answer,
  )
