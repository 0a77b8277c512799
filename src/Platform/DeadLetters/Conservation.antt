-- ===== src/Platform/DeadLetters/Conservation.antt =====
-- pkg/kafka/dlq/dlq.go: where each dead letter is.
use billing_simulator.Base.{
  ℕ, suc, ◌≡◌, ◌≤◌, ◌+◌, refl, sym, subst, inl, inr, Bool, true, false, Option, none, some, List,
  [], ◌∷◌, ◌++◌, arith, length, length-append, if◌then◌else◌, Bool-cases, ltb,
}
use billing_simulator.Entity.Errors.{Error}
use billing_simulator.Platform.DeadLetters.{
  Config, DeadLetter, Stage, ready, backs_off, ended, Dlq, new_dlq, send_now, publish_error,
  received, receive_from, receive_letter, next_backoff, put_back, wait_over, give_up, wait_cut,
  drain_one, drain, drain_from, finish, Event, publishes, receives, waits_out, is_cut, closes,
  finishes, step, run,
}

-- How many letters of a list a test admits.
abbrev pub count : (DeadLetter → Bool) → List DeadLetter → ℕ
count p [] = 0
count p (m ∷ ms) = (if p m then 1 else 0) + count p ms

-- The letter with which the worker waits.
abbrev pub held : Stage → List DeadLetter
held (ready backoff) = []
held (backs_off m backoff) = m ∷ []
held ended = []

count-append :
    (p : DeadLetter → Bool) (ms ns : List DeadLetter) → count p (ms ++ ns) ≡ count p ms + count p ns
count-append p [] ns = omega arith
count-append p (m ∷ ms) ns = omega (arith, count-append p ms ns)

-- The delay of a worker that has not returned.
abbrev pub WaitsWithin : Config → Stage → Type 0
WaitsWithin c (ready backoff) = (c.initial_backoff ≤ backoff) × (backoff ≤ c.max_backoff)
WaitsWithin c (backs_off m backoff) = (c.initial_backoff ≤ backoff) × (backoff ≤ c.max_backoff)
WaitsWithin c ended = Unit

module _ (c : Config) (p : DeadLetter → Bool) where
  -- The letters are those that PublishError has taken.
  abbrev Balanced : Dlq → Type 0
  Balanced q =
      count p q.accepted
      ≡ count p q.sent + (count p q.ch + (count p (held q.stage) + count p q.lost))

  publish-Balanced :
      (over chosen : Bool) (broker : Option Error) (m : DeadLetter) (q : Dlq)
      → Balanced q
      → Balanced (publish_error c over chosen broker m q).1
  unfolding publish_error send_now
  publish-Balanced over chosen none m q h =
      ground (arith, h, count-append p q.ch (m ∷ []), over, chosen)
  publish-Balanced over chosen (some e) m q h =
      ground (arith, h, count-append p q.ch (m ∷ []), over, chosen)

  receive-Balanced :
      (broker : Option Error) (stage : Stage) (ch : List DeadLetter) (q : Dlq)
      → stage ≡ q.stage
      → ch ≡ q.ch
      → Balanced q
      → Balanced (receive_from c broker stage ch q)
  unfolding receive_from received
  receive-Balanced none (ready b) (m ∷ rest) q s e h = ground (arith, h, s, e)
  receive-Balanced (some x) (ready b) (m ∷ rest) q s e h = ground (arith, h, s, e)
  receive-Balanced broker (ready b) [] q s e h = h
  receive-Balanced broker (backs_off m b) ch q s e h = h
  receive-Balanced broker ended ch q s e h = h

  put_back-Balanced :
      (stage : Stage) (q : Dlq) → stage ≡ q.stage → Balanced q → Balanced (put_back c stage q)
  unfolding put_back
  put_back-Balanced (backs_off m b) q s h = ground (arith, h, s, count-append p q.ch (m ∷ []))
  put_back-Balanced (ready b) q s h = h
  put_back-Balanced ended q s h = h

  give_up-Balanced :
      (stage : Stage) (q : Dlq) → stage ≡ q.stage → Balanced q → Balanced (give_up stage q)
  unfolding give_up
  give_up-Balanced (backs_off m b) q s h = ground (arith, h, s)
  give_up-Balanced (ready b) q s h = h
  give_up-Balanced ended q s h = h

  drain_one-Balanced :
      (r : Option Error) (m : DeadLetter) (ms : List DeadLetter) (q : Dlq)
      → count p q.accepted ≡ count p q.sent + (count p (m ∷ ms) + count p q.lost)
      → count p (drain_one r m q).accepted
        ≡ count p (drain_one r m q).sent + (count p ms + count p (drain_one r m q).lost)
  unfolding drain_one
  drain_one-Balanced none m ms q h = omega (arith, h)
  drain_one-Balanced (some e) m ms q h = omega (arith, h)

  drain-Balanced :
      (broker : ℕ → Option Error) (n : ℕ) (ms : List DeadLetter) (q : Dlq)
      → count p q.accepted ≡ count p q.sent + (count p ms + count p q.lost)
      → Balanced (drain broker n ms q)
  unfolding drain
  drain-Balanced broker n [] q h = omega (arith, h)
  drain-Balanced broker n (m ∷ ms) q h =
      drain-Balanced broker (suc n) ms (drain_one (broker n) m q)
        (drain_one-Balanced (broker n) m ms q h)

  finish-Balanced :
      (broker : ℕ → Option Error) (stage : Stage) (q : Dlq)
      → stage ≡ q.stage
      → Balanced q
      → Balanced (drain_from broker stage q)
  unfolding drain_from
  finish-Balanced broker (ready b) q s h = drain-Balanced broker 0 q.ch q (ground (arith, h, s))
  finish-Balanced broker (backs_off m b) q s h = h
  finish-Balanced broker ended q s h = h

  either-Balanced :
      (b : Bool) (q q' : Dlq) → Balanced q → Balanced q' → Balanced (if b then q else q')
  either-Balanced true q q' h k = h
  either-Balanced false q q' h k = k

  step-Balanced : (e : Event) (q : Dlq) → Balanced q → Balanced (step c e q)
  unfolding step receive_letter wait_over wait_cut finish
  step-Balanced (publishes over chosen broker m) q h = publish-Balanced over chosen broker m q h
  step-Balanced (receives broker) q h = receive-Balanced broker q.stage q.ch q refl refl h
  step-Balanced waits_out q h = put_back-Balanced q.stage q refl h
  step-Balanced is_cut q h = either-Balanced q.canceled _ q (give_up-Balanced q.stage q refl h) h
  step-Balanced closes q h = h
  step-Balanced (finishes broker) q h =
      either-Balanced q.canceled _ q (finish-Balanced broker q.stage q refl h) h

  run-Balanced : (es : List Event) (q : Dlq) → Balanced q → Balanced (run c es q)
  unfolding run
  run-Balanced [] q h = h
  run-Balanced (e ∷ es) q h = run-Balanced es (step c e q) (step-Balanced e q h)

-- The channel, and the delay of the worker.
abbrev Bounded : Config → Dlq → Type 0
Bounded c q = (length q.ch ≤ c.buffer_size) × WaitsWithin c q.stage

either-Bounded :
    (c : Config) (b : Bool) (q q' : Dlq)
    → Bounded c q
    → Bounded c q'
    → Bounded c (if b then q else q')
either-Bounded c true q q' h k = h
either-Bounded c false q q' h k = k

module _ (c : Config) where
  publish-stage :
      (over chosen : Bool) (broker : Option Error) (m : DeadLetter) (q : Dlq)
      → (publish_error c over chosen broker m q).1.stage ≡ q.stage
  unfolding publish_error send_now
  publish-stage over chosen none m q = ground (arith, over, chosen)
  publish-stage over chosen (some e) m q = ground (arith, over, chosen)

  publish-length :
      (over chosen : Bool) (broker : Option Error) (m : DeadLetter) (q : Dlq)
      → length q.ch ≤ c.buffer_size
      → length (publish_error c over chosen broker m q).1.ch ≤ c.buffer_size
  unfolding publish_error send_now
  publish-length over chosen none m q h =
      ground (arith, h, length-append q.ch (m ∷ []), over, chosen)
  publish-length over chosen (some e) m q h =
      ground (arith, h, length-append q.ch (m ∷ []), over, chosen)

  drain-Bounded :
      (broker : ℕ → Option Error) (n : ℕ) (ms : List DeadLetter) (q : Dlq)
      → Bounded c (drain broker n ms q)
  unfolding drain
  drain-Bounded broker n [] q = (omega arith, tt)
  drain-Bounded broker n (m ∷ ms) q = drain-Bounded broker (suc n) ms (drain_one (broker n) m q)

  module _ (ordered : c.initial_backoff ≤ c.max_backoff) where
    receive-Bounded :
        (broker : Option Error) (stage : Stage) (ch : List DeadLetter) (q : Dlq)
        → stage ≡ q.stage
        → ch ≡ q.ch
        → Bounded c q
        → Bounded c (receive_from c broker stage ch q)
    unfolding receive_from received
    receive-Bounded none (ready b) (m ∷ rest) q s e h =
        (ground (arith, h, e), (omega arith, ordered))
    receive-Bounded (some x) (ready b) (m ∷ rest) q s e (h, k) =
        (ground (arith, h, e), subst (WaitsWithin c) (sym s) k)
    receive-Bounded broker (ready b) [] q s e h = h
    receive-Bounded broker (backs_off m b) ch q s e h = h
    receive-Bounded broker ended ch q s e h = h

    put_back-Bounded :
        (stage : Stage) (q : Dlq) → stage ≡ q.stage → Bounded c q → Bounded c (put_back c stage q)
    unfolding put_back next_backoff
    put_back-Bounded (backs_off m b) q s (h, k) =
        let within : WaitsWithin c (backs_off m b) = subst (WaitsWithin c) (sym s) k in
        elim (Bool-cases (ltb (length q.ch) c.buffer_size)) [
          | inl e ↦ rw e (
            ground (arith, e, length-append q.ch (m ∷ [])),
            (ground (arith, within), ground (arith, within)),
          )
          | inr e ↦ rw e (h, (ground (arith, within), ground (arith, within)))
        ]
    put_back-Bounded (ready b) q s h = h
    put_back-Bounded ended q s h = h

    give_up-Bounded : (stage : Stage) (q : Dlq) → Bounded c q → Bounded c (give_up stage q)
    unfolding give_up
    give_up-Bounded (backs_off m b) q (h, k) = (h, tt)
    give_up-Bounded (ready b) q h = h
    give_up-Bounded ended q h = h

    finish-Bounded :
        (broker : ℕ → Option Error) (stage : Stage) (q : Dlq)
        → Bounded c q
        → Bounded c (drain_from broker stage q)
    unfolding drain_from
    finish-Bounded broker (ready b) q h = drain-Bounded broker 0 q.ch q
    finish-Bounded broker (backs_off m b) q h = h
    finish-Bounded broker ended q h = h

    step-Bounded : (e : Event) (q : Dlq) → Bounded c q → Bounded c (step c e q)
    unfolding step receive_letter wait_over wait_cut finish
    step-Bounded (publishes over chosen broker m) q (h, k) = (
      publish-length over chosen broker m q h,
      subst (WaitsWithin c) (sym (publish-stage over chosen broker m q)) k,
    )
    step-Bounded (receives broker) q h = receive-Bounded broker q.stage q.ch q refl refl h
    step-Bounded waits_out q h = put_back-Bounded q.stage q refl h
    step-Bounded is_cut q h =
        either-Bounded c q.canceled (give_up q.stage q) q (give_up-Bounded q.stage q h) h
    step-Bounded closes q h = h
    step-Bounded (finishes broker) q h =
        either-Bounded c q.canceled (drain_from broker q.stage q) q
          (finish-Bounded broker q.stage q h) h

    run-Bounded : (es : List Event) (q : Dlq) → Bounded c q → Bounded c (run c es q)
    unfolding run
    run-Bounded [] q h = h
    run-Bounded (e ∷ es) q h = run-Bounded es (step c e q) (step-Bounded e q h)

    -- Whatever happens to a new queue, in whatever order, where the first delay is no longer than the
    -- longest: each letter that PublishError has taken, counted as often as it was taken, is in one of
    -- four places, sent, in the channel, with the worker that waits to try it again, or given up; the
    -- channel holds no more than BufferSize letters; and the worker's delay stays between the first
    -- and the longest one.
    pub run_keeps_letters :
        (es : List Event) (p : DeadLetter → Bool)
        → (count p (run c es (new_dlq c)).accepted
            ≡ count p (run c es (new_dlq c)).sent
              + (count p (run c es (new_dlq c)).ch
                  + (count p (held (run c es (new_dlq c)).stage)
                      + count p (run c es (new_dlq c)).lost)))
          × (length (run c es (new_dlq c)).ch ≤ c.buffer_size)
          × WaitsWithin c (run c es (new_dlq c)).stage
    run_keeps_letters es p =
        let within = run-Bounded es (new_dlq c) (omega arith, (omega arith, ordered)) in
        (run-Balanced c p es (new_dlq c) (omega arith), within.0, within.1)
