-- ===== src/Transport/Hub.antt =====
-- internal/transport/ws/hub.go and client.go: the hub that sends events to the dashboards. A client
-- is a number, and its channel `send` is the list of what is in it, and whether it is closed. Go
-- panics when a closed channel is closed or sent to. The texts are those that json.Marshal makes.
pub mod Safety
use billing_simulator.Base.{
  ℕ, ◌+◌, String, Bool, true, false, not, List, [], ◌∷◌, ◌++◌, ◌==◌, ltb, length, any, keep,
  if◌then◌else◌,
}
use billing_simulator.Entity.Errors.{Outcome, returns, panics, ◌>>=◌}

pub record Channel : Type 0 where
  pub waiting : List String
  pub closed : Bool

pub record Hub : Type 0 where
  pub clients : List ℕ
  pub channel : ℕ → Channel
  pub queue : List String

-- `sendBufferSize`, and the size of the channel `broadcast`
abbrev pub send_buffer_size : ℕ
send_buffer_size = 64

abbrev pub broadcast_size : ℕ
broadcast_size = 256

-- `NewHub`, with a new channel for every client that will come
abbrev pub new_hub : Hub
new_hub = record {
  clients = [];
  channel = λ c. record { waiting = []; closed = false };
  queue = [];
}

unfoldable pub is_registered : ℕ → List ℕ → Bool
is_registered c clients = any (λ x. x == c) clients

unfoldable pub set_channel : ℕ → Channel → (ℕ → Channel) → ℕ → Channel
set_channel c ch channel j = if j == c then ch else channel j

-- The case of `Run` that takes from `register`
unfoldable pub register : ℕ → Hub → Hub
unfolding is_registered
register c h = if is_registered c h.clients then h else record h { clients = c ∷ h.clients }

-- `close(c.send)`
unfoldable pub close : ℕ → (ℕ → Channel) → Outcome (ℕ → Channel)
unfolding set_channel
close c channel =
    if (channel c).closed
    then panics
    else returns (set_channel c (record { waiting = (channel c).waiting; closed = true }) channel)

-- The case of `Run` that takes from `unregister`
unfoldable pub unregister : ℕ → Hub → Outcome Hub
unfolding is_registered close
unregister c h =
    if is_registered c h.clients
    then (do
      channel ← close c h.channel
      returns (record h { clients = keep (λ x. not (x == c)) h.clients; channel = channel }))
    else returns h

-- The send to one client, which drops the message where the buffer is full.
unfoldable pub send : String → ℕ → (ℕ → Channel) → Outcome (ℕ → Channel)
unfolding set_channel
send text c channel =
    if (channel c).closed
    then panics
    else if ltb (length (channel c).waiting) send_buffer_size
    then returns (
        set_channel c (record { waiting = (channel c).waiting ++ text ∷ []; closed = false })
          channel)
    else returns channel

unfoldable pub send_all : String → List ℕ → (ℕ → Channel) → Outcome (ℕ → Channel)
unfolding send
send_all text [] channel = returns channel
send_all text (c ∷ cs) channel = send text c channel >>= send_all text cs

-- The case of `Run` that takes from `broadcast`, if there is something.
unfoldable pub deliver_from : List String → Hub → Outcome Hub
unfolding send_all
deliver_from [] h = returns h
deliver_from (text ∷ texts) h = do
  channel ← send_all text h.clients h.channel
  returns (record h { channel = channel; queue = texts })

unfoldable pub deliver_next : Hub → Outcome Hub
unfolding deliver_from
deliver_next h = deliver_from h.queue h

-- `Broadcast`, of an event that can be marshalled
unfoldable pub broadcast : String → Hub → Hub
broadcast text h =
    if ltb (length h.queue) broadcast_size then record h { queue = h.queue ++ text ∷ [] } else h

-- The receive of `writePump`
unfoldable pub without_first : List String → List String
without_first [] = []
without_first (_ ∷ texts) = texts

unfoldable pub receive : ℕ → Hub → Hub
unfolding set_channel without_first
receive c h =
    let ch = h.channel c in
    record h {
      channel =
          set_channel c (record { waiting = without_first ch.waiting; closed = ch.closed })
            h.channel;
    }

-- What can happen to a hub.
pub data Event : Type 0 where
  connects disconnects reads : ℕ → Event
  broadcasts : String → Event
  delivers : Event

unfoldable pub step : Event → Hub → Outcome Hub
unfolding register unregister deliver_next broadcast receive
step (connects c) h = returns (register c h)
step (disconnects c) h = unregister c h
step (reads c) h = returns (receive c h)
step (broadcasts text) h = returns (broadcast text h)
step delivers h = deliver_next h

unfoldable pub run : List Event → Hub → Outcome Hub
unfolding step
run [] h = returns h
run (e ∷ es) h = step e h >>= run es
