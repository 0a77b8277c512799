-- ===== src/Platform/Processor/Accounting.antt =====
-- pkg/kafka/processor.go over pkg/kafka/dlq: where a message is once it has been processed.
use billing_simulator.Base.{ℕ, ◌≡◌, String, Bool, Option, none, some, List, [], ◌∷◌}
use billing_simulator.Entity.Errors.{Error}
use billing_simulator.Platform.Processor.{
  Config, Message, HandlerError, unretryable_error, other_error, Weather, Action, handled,
  published, committed, Ending, acknowledged, stopped, dead, panicked, process_with_retry,
}
use billing_simulator.Platform.DeadLetters
use billing_simulator.Platform.DeadLetters.{DeadLetter, Dlq, publish_error}

-- The offsets that the consumer has committed, and the queue of dead letters.
pub record World : Type 0 where
  pub commits : List Message
  pub dlq : Dlq

unfoldable pub text_of : Option HandlerError → Option String
text_of none = none
text_of (some (unretryable_error e)) = some e
text_of (some (other_error e)) = some e

-- What PublishError makes of a message.
unfoldable pub dead_letter : Message → Option HandlerError → ℕ → DeadLetter
unfolding text_of
dead_letter m last attempt = record {
  topic = m.topic;
  key = m.key;
  value = m.value;
  headers = m.headers;
  err = text_of last;
  attempt = attempt;
}

-- The caller's context has ended, that is chosen where there is room as well, and what the broker
-- would answer to a dead letter.
pub record Surroundings : Type 0 where
  pub over : Bool
  pub chosen : Bool
  pub broker : Option Error

module _ (dc : DeadLetters.Config) (env : Surroundings) (m : Message) where
  -- What an action of the worker does; an error of PublishError is logged only.
  unfoldable pub act : Action → World → World
  unfolding dead_letter publish_error
  act (handled i) w = w
  act (published last attempt) w = record w {
    dlq = (publish_error dc env.over env.chosen env.broker (dead_letter m last attempt) w.dlq).1;
  }
  act committed w = record w { commits = m ∷ w.commits }

  unfoldable pub act_all : List Action → World → World
  unfolding act
  act_all [] w = w
  act_all (a ∷ rest) w = act_all rest (act a w)

  -- `processWithRetry`, over the consumer and the queue
  unfoldable pub process_message : Config → (ℕ → Weather) → World → Ending × World
  unfolding act_all process_with_retry
  process_message c weather w =
      let (actions, ending) = process_with_retry c weather in (ending, act_all actions w)

  -- PublishError has returned no error, and the queue has taken the letter; or it has returned one,
  -- and the queue is as it was.
  abbrev pub IsPublished : DeadLetter → Dlq → Option Error → Dlq → Type 0
  IsPublished letter q none q' = q'.accepted ≡ letter ∷ q.accepted
  IsPublished letter q (some e) q' = q' ≡ q

  -- Where a message is, by how its processing has ended.
  abbrev pub Accounted : Config → Ending → World → World → Type 0
  Accounted c (acknowledged k) w w' = (w'.commits ≡ m ∷ w.commits) × (w'.dlq ≡ w.dlq)
  Accounted c (stopped k) w w' = w' ≡ w
  Accounted c (dead k last) w w' =
      (w'.commits ≡ m ∷ w.commits)
      × IsPublished (dead_letter m last c.max_attempts) w.dlq
          (publish_error dc env.over env.chosen env.broker (dead_letter m last c.max_attempts)
            w.dlq).0
          w'.dlq
  Accounted c panicked w w' = ⊥
