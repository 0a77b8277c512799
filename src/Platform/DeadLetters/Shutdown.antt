-- ===== src/Platform/DeadLetters/Shutdown.antt =====
-- pkg/kafka/dlq/dlq.go: what Close does to the letters that are left.
use billing_simulator.Base.{
  ℕ, suc, ◌≡◌, refl, sym, ap, ◌∙◌, subst, inl, inr, Bool, true, false, ◌&&◌, Option, none, some,
  List, [], ◌∷◌, ◌++◌, if◌then◌else◌, Bool-cases,
}
use mathlib.Core.List.{append_assoc, append-nil, reverse, reverse-append}
use billing_simulator.Entity.Errors.{Error, context_canceled}
use billing_simulator.Platform.DeadLetters.{
  Config, DeadLetter, ready, backs_off, ended, Dlq, send_now, publish_error, receive_from,
  receive_letter, put_back, wait_over, give_up, wait_cut, drain_one, drain, drain_from, finish,
  Event, publishes, receives, waits_out, is_cut, closes, finishes, step, run, has_room,
}

-- `rest` is what stands in the channel behind `ms`.
abbrev pub StartsWith : List DeadLetter → List DeadLetter → Type 0
StartsWith ms ch = (rest : List DeadLetter) × (ch ≡ ms ++ rest)

StartsWith-append :
    (ms ch : List DeadLetter) (m : DeadLetter) → StartsWith ms ch → StartsWith ms (ch ++ m ∷ [])
StartsWith-append ms ch m (rest, h) =
    (rest ++ m ∷ [], ap (λ x. x ++ m ∷ []) h ∙ append_assoc ms rest (m ∷ []))

module _ (c : Config) where
  -- The worker has returned, and the letters of a list are still in the channel.
  abbrev Stranded : List DeadLetter → Dlq → Type 0
  Stranded ms q = (q.stage ≡ ended) × StartsWith ms q.ch

  send_now-Stranded :
      (ms : List DeadLetter) (broker : Option Error) (m : DeadLetter) (q : Dlq)
      → Stranded ms q
      → Stranded ms (send_now broker m q).1
  unfolding send_now
  send_now-Stranded ms none m q h = h
  send_now-Stranded ms (some e) m q h = h

  publish-Stranded :
      (ms : List DeadLetter) (over chosen : Bool) (broker : Option Error) (m : DeadLetter) (q : Dlq)
      → Stranded ms q
      → Stranded ms (publish_error c over chosen broker m q).1
  unfolding publish_error
  publish-Stranded ms over chosen broker m q (s, h) = elim (Bool-cases (has_room c q)) [
    | inl room ↦ rw room (stored (over && chosen))
    | inr full ↦ rw full (refused over)
  ]
    where
      stored :
          (b : Bool)
          → Stranded ms
              (if◌then◌else◌ {A = Option Error × Dlq} b
                (some context_canceled, q)
                (none, record q { ch = q.ch ++ m ∷ []; accepted = m ∷ q.accepted })).1
      stored true = (s, h)
      stored false = (s, StartsWith-append ms q.ch m h)

      refused :
          (b : Bool)
          → Stranded ms
              (if◌then◌else◌ {A = Option Error × Dlq} b
                (some context_canceled, q)
                (send_now broker m q)).1
      refused true = (s, h)
      refused false = send_now-Stranded ms broker m q (s, h)

  either-Stranded :
      (ms : List DeadLetter) (b : Bool) (q q' : Dlq)
      → Stranded ms q
      → Stranded ms q'
      → Stranded ms (if b then q else q')
  either-Stranded ms true q q' h k = h
  either-Stranded ms false q q' h k = k

  step-Stranded :
      (ms : List DeadLetter) (e : Event) (q : Dlq) → Stranded ms q → Stranded ms (step c e q)
  unfolding step receive_letter receive_from wait_over put_back wait_cut give_up finish drain_from
  step-Stranded ms (publishes over chosen broker m) q h =
      publish-Stranded ms over chosen broker m q h
  step-Stranded ms (receives broker) q (s, h) =
      subst (λ st. Stranded ms (receive_from c broker st q.ch q)) (sym s) (s, h)
  step-Stranded ms waits_out q (s, h) = subst (λ st. Stranded ms (put_back c st q)) (sym s) (s, h)
  step-Stranded ms is_cut q (s, h) =
      either-Stranded ms q.canceled (give_up q.stage q) q
        (subst (λ st. Stranded ms (give_up st q)) (sym s) (s, h)) (s, h)
  step-Stranded ms closes q h = h
  step-Stranded ms (finishes broker) q (s, h) =
      either-Stranded ms q.canceled (drain_from broker q.stage q) q
        (subst (λ st. Stranded ms (drain_from broker st q)) (sym s) (s, h)) (s, h)

  run-Stranded :
      (ms : List DeadLetter) (es : List Event) (q : Dlq) → Stranded ms q → Stranded ms (run c es q)
  unfolding run
  run-Stranded ms [] q h = h
  run-Stranded ms (e ∷ es) q h = run-Stranded ms es (step c e q) (step-Stranded ms e q h)

  -- A queue that is closed while its worker waits with a letter that could not be sent can end at
  -- once: the worker gives that letter up and returns, and the letters of the channel, in their order,
  -- stay in it whatever happens from then on, unsent.
  pub close_in_wait_strands :
      (q : Dlq) (m : DeadLetter) (backoff : ℕ) (es : List Event)
      → q.stage ≡ backs_off m backoff
      → ((run c (closes ∷ is_cut ∷ []) q).lost ≡ m ∷ q.lost)
        × ((run c (closes ∷ is_cut ∷ es) q).stage ≡ ended)
        × StartsWith q.ch (run c (closes ∷ is_cut ∷ es) q).ch
  unfolding run step wait_cut give_up
  close_in_wait_strands q m backoff es h =
      let over = record q { canceled = true } in
      let gone : Stranded q.ch (give_up q.stage over) =
        subst (λ st. Stranded q.ch (give_up st over)) (sym h) (refl, ([], sym (append-nil q.ch))) in
      let (s, stays) = run-Stranded q.ch es (give_up q.stage over) gone in
      (ap (λ st. (give_up st over).lost) h, s, stays)

  -- The letters of a list have been sent, in their order, and the worker has returned.
  abbrev pub Drained : List DeadLetter → Dlq → Dlq → Type 0
  Drained ms q q' =
      (q'.sent ≡ reverse ms ++ q.sent) × (q'.lost ≡ q.lost) × (q'.ch ≡ []) × (q'.stage ≡ ended)

  turned :
      (ms : List DeadLetter) (m : DeadLetter) (sent : List DeadLetter)
      → reverse (m ∷ ms) ++ sent ≡ reverse ms ++ m ∷ sent
  turned ms m sent =
      ap (λ x. x ++ sent) (reverse-append (m ∷ []) ms) ∙ append_assoc (reverse ms) (m ∷ []) sent

  drained :
      (broker : ℕ → Option Error) (n : ℕ) (ms : List DeadLetter) (q : Dlq)
      → ((i : ℕ) → broker i ≡ none)
      → Drained ms q (drain broker n ms q)
  unfolding drain drain_one
  drained broker n [] q h = (refl, refl, refl, refl)
  drained broker n (m ∷ ms) q h =
      let (sent, lost, ch, stage) = drained broker (suc n) ms (record q { sent = m ∷ q.sent }) h in
      subst (λ r. Drained (m ∷ ms) q (drain broker (suc n) ms (drain_one r m q))) (sym (h n))
        (sent ∙ sym (turned ms m q.sent), lost, ch, stage)

  -- A queue that is closed while its worker waits for a message, and whose broker takes all letters
  -- from then on, is emptied: the worker sends the letters of the channel in their order, gives none
  -- up, and returns.
  pub close_drains :
      (q : Dlq) (backoff : ℕ) (broker : ℕ → Option Error)
      → q.stage ≡ ready backoff
      → ((i : ℕ) → broker i ≡ none)
      → Drained q.ch q (run c (closes ∷ finishes broker ∷ []) q)
  unfolding run step finish drain_from
  close_drains q backoff broker h k =
      let over = record q { canceled = true } in
      subst (λ st. Drained q.ch over (drain_from broker st over)) (sym h)
        (drained broker 0 q.ch over k)
