-- ===== src/Service/WebhookDelivery/Scheduled.antt =====
-- internal/service/webhook.go: the logs that Deliver leaves.
use mathlib.Core.List.{append-nil, append_assoc, map-append}
use billing_simulator.Base.{
  sym, ℕ, suc, ◌≡◌, refl, ◌∙◌, String, Bool, true, false, ◌&&◌, not, none, List, [], ◌∷◌, ◌++◌, map,
  All, All-append, keep, subst, Time, inl, inr, Option-cases, is_some, Bool-cases, ◌==◌, Option,
  some, if◌then◌else◌,
}
use billing_simulator.Entity.Errors.{Ensures, Ensures->>=, Ensures-mono}
use billing_simulator.Entity.Status.{pending}
use billing_simulator.Entity.Events.{Uuid}
use billing_simulator.Entity.WebhookEndpoint.{WebhookEndpoint}
use billing_simulator.Entity.WebhookLog.{WebhookLog, new_webhook_log}
use billing_simulator.Entity.Aggregate.{generate_public_id}
use billing_simulator.Repository.Table.{insert, sort_desc, is_live}
use billing_simulator.Repository.Events
use billing_simulator.Repository.WebhookEndpoints
use billing_simulator.Repository.WebhookEndpoints.{is_active_of}
use billing_simulator.Repository.WebhookLogs
use billing_simulator.Repository.WebhookLogs.{scan_pending}
use billing_simulator.Service.WebhookDelivery.{
  Queue, Round, or_skip, deliver_to, deliver_each, deliver,
}

-- A round in which nothing fails.
unfoldable pub is_clear : Round → Bool
is_clear r = not (is_some r.event_fault) && (is_some r.draw.bytes && not (is_some r.log_fault))

-- The endpoints whose round is clear.
unfoldable pub reached : (ℕ → Round) → ℕ → List WebhookEndpoint → List WebhookEndpoint
unfolding is_clear
reached rounds k [] = []
reached rounds k (ep ∷ eps) =
    if is_clear (rounds k) then ep ∷ reached rounds (suc k) eps else reached rounds (suc k) eps

-- A log that the worker will send at its next round.
pub record Waiting (trace : Uuid) (event_type payload : String) (now : Time) (wl : WebhookLog)
    : Type 0 where
  pub waits : wl.status ≡ pending
  pub first : wl.attempt ≡ 1
  pub due : wl.next_attempt_at ≡ now
  pub traced : wl.trace_id ≡ trace
  pub typed : wl.event_type ≡ event_type
  pub carried : wl.payload ≡ payload

-- A log is of an endpoint, at its URL.
unfoldable pub target : WebhookLog → Uuid × String
target wl = (wl.endpoint_id, wl.target_url)

unfoldable pub address : WebhookEndpoint → Uuid × String
address ep = (ep.id, ep.url)

-- The logs that were added, one for each endpoint of a list.
pub record Scheduled (trace : Uuid) (event_type payload : String) (now : Time)
    (eps : List WebhookEndpoint) (q q' : Queue) : Type 0 where
  pub new : List WebhookLog
  pub appended : q'.logs ≡ q.logs ++ new
  pub targets : map target new ≡ map address eps
  pub waiting : All (Waiting trace event_type payload now) new

head_or_not {ℓ} :
    {A : Type ℓ} (b : Bool) (x : A) (rest : List A)
    → (if b then x ∷ [] else []) ++ rest ≡ (if b then x ∷ rest else rest)
head_or_not true x rest = refl
head_or_not false x rest = refl

-- The enabled endpoints of a customer in a table that are not deleted, the newest first.
unfoldable pub active_endpoints : Uuid → List WebhookEndpoint → List WebhookEndpoint
active_endpoints customer rows =
    sort_desc (λ e. e.created_at)
      (keep (λ e. e.customer_id == customer && (e.enabled && not (is_some e.deleted_at))) rows)

-- Which of the endpoints are reached depends on the rounds only.
reached_addresses :
    (rounds : ℕ → Round) (k : ℕ) (eps : List WebhookEndpoint)
    → map address (reached rounds k (map WebhookEndpoints.scan_row eps))
      ≡ map address (reached rounds k eps)
unfolding reached address WebhookEndpoints.scan_row
reached_addresses rounds k [] = refl
reached_addresses rounds k (ep ∷ eps) = elim (Bool-cases (is_clear (rounds k))) [
  | inl e ↦ rw (e, reached_addresses rounds (suc k) eps) refl
  | inr e ↦ rw e (reached_addresses rounds (suc k) eps)
]

live_or_not : (o : Option Time) → is_live o ≡ not (is_some o)
live_or_not none = refl
live_or_not (some t) = refl

-- The WHERE clause of GetActiveByCustomerID admits these endpoints.
selected :
    (customer : Uuid) (rows : List WebhookEndpoint)
    → keep (is_active_of customer) rows
      ≡ keep (λ e. e.customer_id == customer && (e.enabled && not (is_some e.deleted_at))) rows
selected customer [] = refl
selected customer (e ∷ es) = rw (selected customer es, live_or_not e.deleted_at) refl

module _ (trace : Uuid) (event_type payload : String) (now : Time) where
  no_logs : (q q' : Queue) → q'.logs ≡ q.logs → Scheduled trace event_type payload now [] q q'
  no_logs q q' same = record {
    new = [];
    appended = same ∙ sym (append-nil q.logs);
    targets = refl;
    waiting = tt;
  }

  both_parts :
      (xs ys : List WebhookEndpoint) (q q' q'' : Queue)
      → Scheduled trace event_type payload now xs q q'
      → Scheduled trace event_type payload now ys q' q''
      → Scheduled trace event_type payload now (xs ++ ys) q q''
  both_parts xs ys q q' q'' h k = record {
    new = h.new ++ k.new;
    appended = rw (k.appended, h.appended) (append_assoc q.logs h.new k.new);
    targets =
        rw (map-append target h.new k.new, map-append address xs ys, h.targets, k.targets) refl;
    waiting = All-append (Waiting trace event_type payload now) h.new k.new h.waiting k.waiting;
  }

  one_round :
      (r : Round) (ep : WebhookEndpoint) (q : Queue)
      → Ensures
          (deliver_to r trace event_type payload now ep q)
          (Scheduled trace event_type payload now (if is_clear r then ep ∷ [] else []) q)
  unfolding deliver_to is_clear or_skip new_webhook_log generate_public_id Events.create
      WebhookLogs.create scan_pending insert target address
  one_round r ep q = elim (Option-cases r.event_fault) [
    | inr (e, faulty) ↦ rw faulty (no_logs q q refl)
    | inl ok ↦ elim (Option-cases r.draw.bytes) [
      | inl dry ↦ rw (ok, dry) (no_logs q _ refl)
      | inr (bytes, drawn) ↦ elim (Option-cases r.log_fault) [
        | inl fine ↦
            rw (ok, drawn, fine)
              (record {
                new = _ ∷ [];
                appended = refl;
                targets = refl;
                waiting = (
                  record {
                    waits = refl;
                    first = refl;
                    due = refl;
                    traced = refl;
                    typed = refl;
                    carried = refl;
                  },
                  tt,
                );
              })
        | inr (e, faulty) ↦ rw (ok, drawn, faulty) (no_logs q _ refl)
      ]
    ]
  ]

  every_round :
      (rounds : ℕ → Round) (k : ℕ) (eps : List WebhookEndpoint) (q : Queue)
      → Ensures
          (deliver_each rounds k trace event_type payload now eps q)
          (Scheduled trace event_type payload now (reached rounds k eps) q)
  unfolding deliver_each reached
  every_round rounds k [] q = no_logs q q refl
  every_round rounds k (ep ∷ eps) q =
      let head = if is_clear (rounds k) then ep ∷ [] else [] in
      let tail = reached rounds (suc k) eps in
      Ensures->>= (Scheduled trace event_type payload now head q) _ _ _ (one_round (rounds k) ep q)
        λ q' h.
          Ensures-mono _ (Scheduled trace event_type payload now (reached rounds k (ep ∷ eps)) q) _
            (every_round rounds (suc k) eps q')
            λ q'' h'.
              subst (λ xs. Scheduled trace event_type payload now xs q q'')
                (head_or_not (is_clear (rounds k)) ep tail) (both_parts head tail q q' q'' h h')

  by_address :
      (xs ys : List WebhookEndpoint) (q q' : Queue)
      → map address xs ≡ map address ys
      → Scheduled trace event_type payload now xs q q'
      → Scheduled trace event_type payload now ys q q'
  by_address xs ys q q' e h = record {
    new = h.new;
    appended = h.appended;
    targets = h.targets ∙ e;
    waiting = h.waiting;
  }

  -- Where its SELECT does not fail, `Deliver` returns, whatever fails in its loop. It adds one log for
  -- each enabled endpoint of the customer that is not deleted and in whose round nothing fails, the
  -- newest endpoint first, at the endpoint's URL, and no other. Each log is pending, at its first
  -- attempt, and due at once.
  pub deliver-Scheduled :
      (rounds : ℕ → Round) (customer : Uuid) (rows : List WebhookEndpoint) (q : Queue)
      → Ensures (deliver none rounds trace now customer event_type payload rows q) (
          Scheduled trace event_type payload now
            (reached rounds 0 (active_endpoints customer rows))
            q)
  unfolding deliver WebhookEndpoints.get_active_by_customer_id active_endpoints
  deliver-Scheduled rounds customer rows q =
      let found = sort_desc (λ e. e.created_at) (keep (is_active_of customer) rows) in
      let same =
        subst
          (λ eps.
            map address (reached rounds 0 (map WebhookEndpoints.scan_row found))
            ≡ map address (reached rounds 0 (sort_desc (λ e. e.created_at) eps)))
          (selected customer rows) (reached_addresses rounds 0 found) in
      Ensures-mono _ _ _ (every_round rounds 0 (map WebhookEndpoints.scan_row found) q)
        λ q' h. by_address _ _ q q' same h
