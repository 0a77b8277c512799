-- ===== src/Clock/Laws.antt =====
-- internal/clock/clock.go: what a jump of the clock leaves in memory, in Redis and with listeners.
use billing_simulator.Base.{
  ℕ, ◌+◌, ◌-◌, ◌<◌, ◌≤◌, ◌≡◌, true, none, some, List, [], ◌++◌, map, ℤ, add_64, Time, Duration,
  int64_half, sub_time, add_duration-sub_time, arith, is_some, ◌&&◌, if◌then◌else◌,
}
use billing_simulator.Entity.Errors.{returns}
use billing_simulator.Clock.{
  Meets, Redis, VirtualClock, Notice, now, set_time, advance, new_virtual_clock, persist,
  persist_strictly, load_offset, save_offset, publish_offset_changed, notify_listeners, finish,
  announce, announce_strictly,
}

-- Two instants whose distance a duration can hold.
unfoldable pub Near : Time → Time → Type 0
Near t u = (t < u + int64_half) × (u < t + int64_half)

set_time-offset :
    (m : Meets) (t : Time) (c : VirtualClock) → (set_time m t c).1.offset ≡ sub_time t m.real
unfolding set_time finish persist_strictly announce_strictly save_offset publish_offset_changed
    notify_listeners
set_time-offset m t c = ground arith

set_time-saved :
    (m : Meets) (t : Time) (c : VirtualClock)
    → c.has_store ≡ true
    → (set_time m t c).0 ≡ none
    → (set_time m t c).1.redis.saved ≡ some (set_time m t c).1.offset
unfolding set_time finish persist_strictly announce_strictly save_offset publish_offset_changed
    notify_listeners
set_time-saved m t c h ok = ground arith

restart :
    (m : Meets) (r : Redis) (offset : ℤ)
    → m.load ≡ none
    → r.saved ≡ some offset
    → new_virtual_clock m true r
      ≡ returns
          (record { offset = offset; has_store = true; redis = r; listeners = []; notified = [] })
unfolding new_virtual_clock load_offset
restart m r offset h k = ground arith

-- When `SetTime` with an instant whose distance from the real time an int64 of nanoseconds can
-- hold succeeds on a clock with a store, the clock reads that instant, and later ones as the real
-- time passes, and a clock that is then made from the same Redis, without an error of its load,
-- reads the same.
pub set_time-now :
    (m m' : Meets) (t later : Time) (c : VirtualClock)
    → Near t m.real
    → m.real ≤ later
    → m'.load ≡ none
    → c.has_store ≡ true
    → (set_time m t c).0 ≡ none
    → (now later (set_time m t c).1 ≡ t + (later - m.real))
      × ((fresh : VirtualClock) × (new_virtual_clock m' true (set_time m t c).1.redis
            ≡ returns fresh)
          × (now later fresh ≡ t + (later - m.real)))
unfolding now Near
set_time-now m m' t later c (near, near') past loads stored ok =
    let same = set_time-offset m t c in
    let reads = add_duration-sub_time t m.real later near near' past in
    let r = (set_time m t c).1.redis in
    (
      rw same reads,
      (
        record {
          offset = (set_time m t c).1.offset;
          has_store = true;
          redis = r;
          listeners = [];
          notified = [];
        },
        restart m' r (set_time m t c).1.offset loads (set_time-saved m t c stored ok),
        rw same reads,
      ),
    )

-- The calls of listeners that a jump makes.
unfoldable pub calls : Time → Time → List ℕ → List Notice
calls old new listeners = map (λ l. record { listener = l; old = old; new = new }) listeners

-- `Advance` adds the duration to the offset in memory whether Redis fails or not. Where there is a
-- store and the save of the offset fails, it returns that error, calls no listener, and leaves Redis
-- as it was. Otherwise it returns no error and calls each listener once, in order, with the reading
-- before and after, and Redis holds the new offset, if there is a store.
pub advance-outcome :
    (m : Meets) (d : Duration) (c : VirtualClock)
    → let c' = (advance m d c).1 in
      (c'.offset ≡ add_64 c.offset d)
      × (if c.has_store && is_some m.save
          then ((advance m d c).0 ≡ m.save) × (c'.notified ≡ c.notified) × (c'.redis ≡ c.redis)
          else ((advance m d c).0 ≡ none)
            × (c'.notified ≡ c.notified ++ calls (now m.real c) (now m.real c') c.listeners)
            × (c'.redis.saved ≡ (if c.has_store then some c'.offset else c.redis.saved)))
unfolding advance finish persist announce save_offset publish_offset_changed notify_listeners now
    calls
advance-outcome m d c = ground arith
