-- ===== src/Examples/Delivery.antt =====
-- The theorems on the webhook retries at concrete logs.
use billing_simulator.Base.{◌+◌, List, none, ℕ, ◌≡◌, refl, String, ◌<>◌, some, [], ◌∷◌, map, arith}
use billing_simulator.Entity.Errors.{Error, returns}
use billing_simulator.Entity.WebhookLog.{WebhookLog}
use billing_simulator.Repository.WebhookLogs.{is_due, get_pending_for_retry, scan_pending}
use billing_simulator.Repository.Table.{sort_by}
use billing_simulator.Worker.WebhookRetry.{default_config, process_batch, request_of}
use billing_simulator.Worker.WebhookRetry.Schedule.{exhausted_are_sent_again}
use billing_simulator.Worker.WebhookRetry.Batch.{IsInOrder}
use billing_simulator.Worker.Ticker.{tick, stop_requested, stopped, end_of}
use billing_simulator.Worker.Ticker.Retries.{Round, start_retries, start_retries-IsInOrder}
use billing_simulator.Examples.Data.{log, endpoint, answers}

abbrev hmac : String → String → String
hmac secret message = secret <> message

abbrev decimal : ℕ → String
decimal n = "1"

abbrev error_text : Error → String
error_text e = "error"

abbrev used_up : WebhookLog
used_up = record log { attempt = 5 }

-- Two logs that are due, of which one has used up its attempts.
abbrev two_logs : List WebhookLog
two_logs = log ∷ record used_up { id = 2 } ∷ []

-- The endpoint answers 500 in each round.
abbrev failing_rounds : ℕ → Round
failing_rounds n = record { at = 200 + n; fault = none; meets = λ wl. answers 500 }

start_retries-IsInOrder_example :
    let ended =
      start_retries hmac decimal error_text default_config failing_rounds
        (tick ∷ tick ∷ stop_requested ∷ [])
        (record { logs = two_logs; requests = [] }) in
    (ended.0 ≡ stopped) × IsInOrder default_config ended.1.logs
unfolding end_of
start_retries-IsInOrder_example =
    start_retries-IsInOrder hmac decimal error_text default_config failing_rounds
      (tick ∷ tick ∷ stop_requested ∷ []) (record { logs = two_logs; requests = [] }) (λ n wl. tt)
      (((refl, tt), (tt, tt)), ((omega arith, omega arith), ((omega arith, omega arith), tt)))

exhausted_are_sent_again_example :
    process_batch hmac decimal error_text default_config 200 none (λ wl. answers 500) (used_up ∷ [])
    ≡ returns (
      used_up ∷ [],
      map (λ wl. some (request_of hmac decimal error_text endpoint wl 300)) (used_up ∷ []),
    )
unfolding get_pending_for_retry scan_pending is_due sort_by
exhausted_are_sent_again_example =
    exhausted_are_sent_again hmac decimal error_text default_config 200 (λ wl. answers 500)
      (λ wl. endpoint) none (used_up ∷ []) (used_up ∷ []) refl ((omega arith, refl, refl), tt)
