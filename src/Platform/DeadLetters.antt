-- ===== src/Platform/DeadLetters.antt =====
-- pkg/kafka/dlq/dlq.go and options.go: the queue of dead letters. A channel is the list of what is in
-- it. What the broker answers to a send is an input, and so are JSON and base64. The delays of a
-- configuration are small enough to be doubled in an int64. How long a wait takes has no effect.
pub mod Conservation
pub mod Shutdown
use billing_simulator.Base.{
  apply_options, ℕ, suc, ◌*◌, String, Bool, true, false, ◌&&◌, Option, none, some, List, [], ◌∷◌,
  ◌++◌, Time, second, leb, ltb, length, if◌then◌else◌,
}
use billing_simulator.Entity.Errors.{Error, context_canceled}

-- `config`
pub record Config : Type 0 where
  pub buffer_size : ℕ
  pub initial_backoff : ℕ
  pub max_backoff : ℕ

-- `defaultConfig`
abbrev pub default_config : Config
default_config = record { buffer_size = 1000; initial_backoff = second; max_backoff = 30 * second }

-- `WithBufferSize`
unfoldable pub with_buffer_size : ℕ → Config → Config
with_buffer_size n c = record c { buffer_size = n }

-- `WithInitialBackoff`
unfoldable pub with_initial_backoff : ℕ → Config → Config
with_initial_backoff n c = record c { initial_backoff = n }

-- `WithMaxBackoff`
unfoldable pub with_max_backoff : ℕ → Config → Config
with_max_backoff n c = record c { max_backoff = n }

-- The configuration that `New` makes of its options
unfoldable pub configure : List (Config → Config) → Config
unfolding apply_options
configure opts = apply_options opts default_config

-- `dlqMessage`: the fields of the Kafka message that are used, the text of its error, if there is one,
-- and the number of attempts.
pub record DeadLetter : Type 0 where
  pub topic : String
  pub key : String
  pub value : String
  pub headers : List (String × String)
  pub err : Option String
  pub attempt : ℕ

-- A value of the payload
pub data Entry : Type 0 where
  text : String → Entry
  number : ℕ → Entry
  time : Time → Entry

-- What `send` hands to the producer.
pub record Letter : Type 0 where
  pub topic : String
  pub key : String
  pub value : String
  pub headers : List (String × String)

unfoldable pub error_text : Option String → String
error_text none = ""
error_text (some e) = e

module _ (base64 : String → String) (marshal : List (String × Entry) → Option String) where
  -- The payload of `send`, or its fallback where the payload cannot be marshalled; of an error of the
  -- fallback nothing is left.
  unfoldable pub payload : Time → DeadLetter → String
  unfolding error_text
  payload now m =
      elim (marshal (
        ("original_topic", text m.topic)
        ∷ ("error", text (error_text m.err))
        ∷ ("attempt", number m.attempt)
        ∷ ("timestamp", time now)
        ∷ ("data_base64", text (base64 m.value))
        ∷ [])) [
          | some val ↦ val
          | none ↦ error_text (
              marshal (
                ("status", text "marshal_error")
                ∷ ("raw_data_base64", text (base64 m.value))
                ∷ ("error", text (error_text m.err))
                ∷ []))
        ]

  -- `send`, up to the call of the producer
  unfoldable pub letter : String → Time → DeadLetter → Letter
  unfolding payload
  letter topic now m = record {
    topic = topic;
    key = m.key;
    value = payload now m;
    headers = m.headers;
  }

-- What the worker does: it waits for a message, waits with a message that could not be sent, or has
-- returned.
pub data Stage : Type 0 where
  ready : ℕ → Stage
  backs_off : DeadLetter → ℕ → Stage
  ended : Stage

-- `DLQ`, with the messages for which PublishError has returned no error, those that the broker has
-- taken, and those that are given up.
pub record Dlq : Type 0 where
  pub ch : List DeadLetter
  pub canceled : Bool
  pub stage : Stage
  pub accepted : List DeadLetter
  pub sent : List DeadLetter
  pub lost : List DeadLetter

-- `New`
abbrev pub new_dlq : Config → Dlq
new_dlq c = record {
  ch = [];
  canceled = false;
  stage = ready c.initial_backoff;
  accepted = [];
  sent = [];
  lost = [];
}

-- There is room in the channel.
abbrev pub has_room : Config → Dlq → Bool
has_room c q = ltb (length q.ch) c.buffer_size

-- The send of PublishError, and the error that it returns.
unfoldable pub send_now : Option Error → DeadLetter → Dlq → Option Error × Dlq
send_now (some e) m q = (some e, q)
send_now none m q = (none, record q { accepted = m ∷ q.accepted; sent = m ∷ q.sent })

-- `PublishError`, with whether the caller's context has ended, whether that is chosen where there is
-- room as well, and what the broker would answer.
unfoldable pub publish_error :
    Config → Bool → Bool → Option Error → DeadLetter → Dlq → Option Error × Dlq
unfolding send_now
publish_error c over chosen broker m q =
    if has_room c q
    then (if over && chosen
        then (some context_canceled, q)
        else (none, record q { ch = q.ch ++ m ∷ []; accepted = m ∷ q.accepted }))
    else if over
    then (some context_canceled, q)
    else send_now broker m q

-- The worker has received a message, and sends it.
unfoldable pub received : Config → ℕ → Option Error → DeadLetter → List DeadLetter → Dlq → Dlq
received c backoff none m rest q = record q {
  ch = rest;
  sent = m ∷ q.sent;
  stage = ready c.initial_backoff;
}
received c backoff (some e) m rest q = record q { ch = rest; stage = backs_off m backoff }

receive_from : Config → Option Error → Stage → List DeadLetter → Dlq → Dlq
unfolding received
receive_from c broker (ready backoff) (m ∷ rest) q = received c backoff broker m rest q
receive_from c broker _ _ q = q

-- The case of `worker` that receives a message, if it waits for one and there is one.
unfoldable pub receive_letter : Config → Option Error → Dlq → Dlq
unfolding receive_from
receive_letter c broker q = receive_from c broker q.stage q.ch q

-- `min(backoff*2, MaxBackoff)`
unfoldable pub next_backoff : Config → ℕ → ℕ
next_backoff c backoff = if ltb (backoff * 2) c.max_backoff then backoff * 2 else c.max_backoff

unfoldable pub put_back : Config → Stage → Dlq → Dlq
unfolding next_backoff
put_back c (backs_off m backoff) q =
    if has_room c q
    then record q { ch = q.ch ++ m ∷ []; stage = ready (next_backoff c backoff) }
    else record q { lost = m ∷ q.lost; stage = ready (next_backoff c backoff) }
put_back c _ q = q

-- The end of a wait: the message goes back into the channel, or is lost.
unfoldable pub wait_over : Config → Dlq → Dlq
unfolding put_back
wait_over c q = put_back c q.stage q

unfoldable pub give_up : Stage → Dlq → Dlq
give_up (backs_off m backoff) q = record q { lost = m ∷ q.lost; stage = ended }
give_up _ q = q

-- The end of the worker's context during a wait: the worker returns.
unfoldable pub wait_cut : Dlq → Dlq
unfolding give_up
wait_cut q = if q.canceled then give_up q.stage q else q

-- The worker sends a message on its way out, and gives it up if it cannot.
unfoldable pub drain_one : Option Error → DeadLetter → Dlq → Dlq
drain_one none m q = record q { sent = m ∷ q.sent }
drain_one (some e) m q = record q { lost = m ∷ q.lost }

-- The loop of the worker that empties the channel, with what the broker answers to each message, by
-- its number.
unfoldable pub drain : (ℕ → Option Error) → ℕ → List DeadLetter → Dlq → Dlq
unfolding drain_one
drain broker n [] q = record q { ch = []; stage = ended }
drain broker n (m ∷ ms) q = drain broker (suc n) ms (drain_one (broker n) m q)

drain_from : (ℕ → Option Error) → Stage → Dlq → Dlq
unfolding drain
drain_from broker (ready backoff) q = drain broker 0 q.ch q
drain_from broker _ q = q

-- The case of `worker` for the end of its context.
unfoldable pub finish : (ℕ → Option Error) → Dlq → Dlq
unfolding drain_from
finish broker q = if q.canceled then drain_from broker q.stage q else q

-- What can happen to the queue; `closes` is the start of `Close`, which then waits for the worker.
pub data Event : Type 0 where
  publishes : Bool → Bool → Option Error → DeadLetter → Event
  receives : Option Error → Event
  waits_out is_cut closes : Event
  finishes : (ℕ → Option Error) → Event

unfoldable pub step : Config → Event → Dlq → Dlq
unfolding publish_error receive_letter wait_over wait_cut finish
step c (publishes over chosen broker m) q = (publish_error c over chosen broker m q).1
step c (receives broker) q = receive_letter c broker q
step c waits_out q = wait_over c q
step c is_cut q = wait_cut q
step c closes q = record q { canceled = true }
step c (finishes broker) q = finish broker q

unfoldable pub run : Config → List Event → Dlq → Dlq
unfolding step
run c [] q = q
run c (e ∷ es) q = run c es (step c e q)
