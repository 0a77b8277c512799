-- ===== src/Clock.antt =====
-- internal/clock/clock.go and store_redis.go: the clock that can be ahead of the real time.
-- A listener is named by a number, and a call of it is an entry of the list `notified`. Redis is
-- the offset under the key of the clock, which `Set` writes as a decimal and `ParseInt` reads back,
-- and the offsets that were published. The clock of another instance gets those by `sync`.
pub mod Laws
use billing_simulator.Base.{
  ℕ, ◌+◌, ◌-◌, Bool, true, false, Option, none, some, List, [], ◌∷◌, ◌++◌, map, ℤ, pos, negsuc,
  add_64, leb, ltb_ℤ, Time, Duration, add_duration, sub_time, if◌then◌else◌,
}
use billing_simulator.Entity.Errors.{Outcome, returns, fails, panics, overflows, Error}

-- A call of a listener, with the time before and the time after.
pub record Notice : Type 0 where
  pub listener : ℕ
  pub old : Time
  pub new : Time

pub record Redis : Type 0 where
  pub saved : Option ℤ
  pub published : List ℤ

-- The clock, its store, and the calls of listeners so far.
pub record VirtualClock : Type 0 where
  pub offset : Duration
  pub has_store : Bool
  pub redis : Redis
  pub listeners : List ℕ
  pub notified : List Notice

-- What an operation meets: the real time that it reads, and the errors of Redis.
pub record Meets : Type 0 where
  pub real : Time
  pub load : Option Error
  pub save : Option Error
  pub publish : Option Error

-- `LoadOffset`
unfoldable pub load_offset : Meets → Redis → Outcome ℤ
load_offset m r = elim m.load [
  | some e ↦ fails e
  | none ↦ elim r.saved [ none ↦ returns (pos 0) | some offset ↦ returns offset ]
]

-- `SaveOffset`
unfoldable pub save_offset : Meets → ℤ → Redis → Option Error × Redis
save_offset m offset r = elim m.save [
  | some e ↦ (some e, r)
  | none ↦ (none, record r { saved = some offset })
]

-- `PublishOffsetChanged`
unfoldable pub publish_offset_changed : Meets → ℤ → Redis → Option Error × Redis
publish_offset_changed m offset r = elim m.publish [
  | some e ↦ (some e, r)
  | none ↦ (none, record r { published = r.published ++ offset ∷ [] })
]

-- `NewVirtualClock`
unfoldable pub new_virtual_clock : Meets → Bool → Redis → Outcome VirtualClock
unfolding load_offset
new_virtual_clock m false r =
    returns (record { offset = pos 0; has_store = false; redis = r; listeners = []; notified = [] })
new_virtual_clock m true r = elim (load_offset m r) [
  | returns offset ↦
      returns
        (record { offset = offset; has_store = true; redis = r; listeners = []; notified = [] })
  | fails e ↦ fails e
  | panics ↦ panics
  | overflows ↦ overflows
]

-- `Now`
unfoldable pub now : Time → VirtualClock → Time
now real c = add_duration real c.offset

-- `OnTimeJump`
unfoldable pub on_time_jump : ℕ → VirtualClock → VirtualClock
on_time_jump listener c = record c { listeners = c.listeners ++ listener ∷ [] }

-- `notifyListeners`
unfoldable pub notify_listeners : Time → Time → VirtualClock → VirtualClock
notify_listeners old new c = record c {
  notified = c.notified ++ map (λ l. record { listener = l; old = old; new = new }) c.listeners;
}

-- What `Advance` does after `SaveOffset`: an error of the publication is logged only.
announce : Meets → ℤ → Option Error × Redis → Option Error × Redis
unfolding publish_offset_changed
announce m offset (some e, r) = (some e, r)
announce m offset (none, r) = (none, (publish_offset_changed m offset r).1)

-- What `Advance` does with the store.
unfoldable pub persist : Meets → ℤ → Redis → Option Error × Redis
unfolding announce save_offset
persist m offset r = announce m offset (save_offset m offset r)

-- The end of `Advance` and of `SetTime`: an error of the store, or the listeners.
finish : Time → Time → VirtualClock → Option Error × Redis → Option Error × VirtualClock
unfolding notify_listeners
finish old new c (some e, r) = (some e, record c { redis = r })
finish old new c (none, r) = (none, notify_listeners old new (record c { redis = r }))

-- `Advance`: its error, and the clock that it leaves.
unfoldable pub advance : Meets → Duration → VirtualClock → Option Error × VirtualClock
unfolding finish persist now
advance m d c =
    let moved = record c { offset = add_64 c.offset d } in
    finish (now m.real c) (now m.real moved) moved
      (if c.has_store then persist m moved.offset c.redis else (none, c.redis))

-- What `SetTime` does after `SaveOffset`: an error of the publication is an error of the call.
announce_strictly : Meets → ℤ → Option Error × Redis → Option Error × Redis
unfolding publish_offset_changed
announce_strictly m offset (some e, r) = (some e, r)
announce_strictly m offset (none, r) = publish_offset_changed m offset r

-- What `SetTime` does with the store.
unfoldable pub persist_strictly : Meets → ℤ → Redis → Option Error × Redis
unfolding announce_strictly save_offset
persist_strictly m offset r = announce_strictly m offset (save_offset m offset r)

-- `SetTime`
unfoldable pub set_time : Meets → Time → VirtualClock → Option Error × VirtualClock
unfolding finish persist_strictly now sub_time
set_time m t c =
    let moved = record c { offset = sub_time t m.real } in
    finish (now m.real c) t moved
      (if c.has_store then persist_strictly m moved.offset c.redis else (none, c.redis))

-- `Offset`
unfoldable pub offset_of : VirtualClock → Duration
offset_of c = c.offset

-- What `Reset` does with the store: it logs both errors.
unfoldable pub persist_reset : Meets → Redis → Redis
unfolding save_offset publish_offset_changed
persist_reset m r = (publish_offset_changed m (pos 0) (save_offset m (pos 0) r).1).1

-- `Reset`
unfoldable pub reset : Meets → VirtualClock → VirtualClock
unfolding notify_listeners persist_reset now
reset m c =
    notify_listeners (now m.real c) m.real (record c {
      offset = pos 0;
      redis = if c.has_store then persist_reset m c.redis else c.redis;
    })

-- `IsAhead`
unfoldable pub is_ahead : VirtualClock → Bool
is_ahead c = ltb_ℤ (pos 0) c.offset

-- The goroutine of `StartSync`, for one offset that another instance has published: the listeners
-- are not called.
unfoldable pub sync : ℤ → VirtualClock → VirtualClock
sync offset c = record c { offset = offset }
