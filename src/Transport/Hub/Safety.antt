-- ===== src/Transport/Hub/Safety.antt =====
-- internal/transport/ws/hub.go: the channels and buffers of the hub, event by event.
use billing_simulator.Base.{
  ℕ, ◌≤◌, ◌≡◌, ◌∙◌, refl, subst, sym, ==_iff, String, true, false, not, List, [], ◌∷◌, ◌==◌, ltb,
  length, length-append, any, keep, All, All-mono, Bool-cases, inl, inr, arith,
}
use billing_simulator.Entity.Errors.{Ensures, Ensures->>=, Ensures-mono}
use billing_simulator.Repository.Table.{keep-All-also}
use billing_simulator.Transport.Hub.{
  Channel, Hub, Event, connects, disconnects, reads, broadcasts, delivers, new_hub, is_registered,
  set_channel, register, close, unregister, send, send_all, deliver_from, deliver_next, broadcast,
  without_first, receive, step, run, send_buffer_size, broadcast_size,
}

-- The clients that have connected so far.
abbrev after_event : Event → List ℕ → List ℕ
after_event (connects c) seen = c ∷ seen
after_event _ seen = seen

-- No client connects that has connected before: each runs Serve once.
unfoldable pub AreNew : List ℕ → List Event → Type 0
AreNew seen [] = Unit
AreNew seen (connects c ∷ es) = (any (λ x. x == c) seen ≡ false) × AreNew (c ∷ seen) es
AreNew seen (disconnects c ∷ es) = AreNew seen es
AreNew seen (reads c ∷ es) = AreNew seen es
AreNew seen (broadcasts text ∷ es) = AreNew seen es
AreNew seen (delivers ∷ es) = AreNew seen es

-- Every client has an open channel; a closed channel is that of a client that has connected.
record Inv (seen : List ℕ) (h : Hub) : Type 0 where
  open_clients : All (λ c. (h.channel c).closed ≡ false) h.clients
  clients_seen : All (λ c. any (λ x. x == c) seen ≡ true) h.clients
  closed_seen : (c : ℕ) → (h.channel c).closed ≡ true → any (λ x. x == c) seen ≡ true
  fits : (c : ℕ) → length (h.channel c).waiting ≤ send_buffer_size
  queue_fits : length h.queue ≤ broadcast_size

-- What a send leaves of the channels.
record Kept (before after : ℕ → Channel) : Type 0 where
  ends : (c : ℕ) → (after c).closed ≡ (before c).closed
  fits : (c : ℕ) → length (after c).waiting ≤ send_buffer_size

send-Kept :
    (text : String) (c : ℕ) (channel : ℕ → Channel)
    → (channel c).closed ≡ false
    → ((d : ℕ) → length (channel d).waiting ≤ send_buffer_size)
    → Ensures (send text c channel) (Kept channel)
unfolding send set_channel
send-Kept text c channel open_ fits =
    elim (Bool-cases (ltb (length (channel c).waiting) send_buffer_size)) [
      | inr full ↦ rw (open_, full) (record { ends = λ d. refl; fits = fits })
      | inl room ↦
          rw (open_, room)
            (record {
              ends = λ d. ground (arith, open_);
              fits =
                  λ d. ground (arith, fits d, room, length-append (channel c).waiting (text ∷ []));
            })
    ]

send_all-Kept :
    (text : String) (cs : List ℕ) (channel : ℕ → Channel)
    → All (λ c. (channel c).closed ≡ false) cs
    → ((d : ℕ) → length (channel d).waiting ≤ send_buffer_size)
    → Ensures (send_all text cs channel) (Kept channel)
unfolding send_all
send_all-Kept text [] channel h fits = record { ends = λ c. refl; fits = fits }
send_all-Kept text (c ∷ cs) channel (h, hs) fits =
    Ensures->>= (Kept channel) _ (send text c channel) _ (send-Kept text c channel h fits)
      λ channel' k.
        Ensures-mono (Kept channel') _ (send_all text cs channel')
          (send_all-Kept text cs channel' (All-mono cs hs λ d e. k.ends d ∙ e) k.fits)
          λ channel'' k'. record { ends = λ d. k'.ends d ∙ k.ends d; fits = k'.fits }

seen_longer :
    (c d : ℕ) (seen : List ℕ) → any (λ x. x == d) seen ≡ true → any (λ x. x == d) (c ∷ seen) ≡ true
seen_longer c d seen h = ground arith

seen_first : (c : ℕ) (seen : List ℕ) → any (λ x. x == c) (c ∷ seen) ≡ true
seen_first c seen = ground arith

-- A client that has not connected before has an open channel.
new_open :
    (seen : List ℕ) (h : Hub) (c : ℕ)
    → Inv seen h
    → any (λ x. x == c) seen ≡ false
    → (h.channel c).closed ≡ false
new_open seen h c i fresh = elim (Bool-cases (h.channel c).closed) [
  | inr e ↦ e
  | inl e ↦ absurd (ground (arith, i.closed_seen c e, fresh))
]

register_keeps :
    (seen : List ℕ) (h : Hub) (c : ℕ)
    → Inv seen h
    → any (λ x. x == c) seen ≡ false
    → Inv (c ∷ seen) (register c h)
unfolding register
register_keeps seen h c i fresh = elim (Bool-cases (is_registered c h.clients)) [
  | inl e ↦ rw e (record {
    open_clients = i.open_clients;
    clients_seen = All-mono h.clients i.clients_seen λ d k. seen_longer c d seen k;
    closed_seen = λ d k. seen_longer c d seen (i.closed_seen d k);
    fits = i.fits;
    queue_fits = i.queue_fits;
  })
  | inr e ↦ rw e (record {
    open_clients = (new_open seen h c i fresh, i.open_clients);
    clients_seen =
        (seen_first c seen, All-mono h.clients i.clients_seen λ d k. seen_longer c d seen k);
    closed_seen = λ d k. seen_longer c d seen (i.closed_seen d k);
    fits = i.fits;
    queue_fits = i.queue_fits;
  })
]

-- What holds of all clients holds of one that is registered.
of_registered : (P : ℕ → Type 0) (c : ℕ) (cs : List ℕ) → All P cs → is_registered c cs ≡ true → P c
unfolding is_registered
of_registered P c [] h k = absurd (ground arith)
of_registered P c (d ∷ ds) (h, hs) k = elim (Bool-cases (d == c)) [
  | inl e ↦ subst P ((==_iff d c).0 e) h
  | inr e ↦ of_registered P c ds hs (ground (arith, e, k))
]

unregister_keeps :
    (seen : List ℕ) (h : Hub) (c : ℕ) → Inv seen h → Ensures (unregister c h) (Inv seen)
unfolding unregister close set_channel
unregister_keeps seen h c i = elim (Bool-cases (is_registered c h.clients)) [
  | inr e ↦ rw (unregister, e) i
  | inl e ↦
      let opened = of_registered (λ d. (h.channel d).closed ≡ false) c h.clients i.open_clients e in
      let known = of_registered (λ d. any (λ x. x == d) seen ≡ true) c h.clients i.clients_seen e in
      rw (unregister, e, close, opened)
        (record {
          open_clients =
              All-mono (keep (λ x. not (x == c)) h.clients)
                (keep-All-also (λ d. (h.channel d).closed ≡ false) (λ x. not (x == c)) h.clients
                  i.open_clients)
                λ d k. ground (arith, k);
          clients_seen =
              All-mono (keep (λ x. not (x == c)) h.clients)
                (keep-All-also (λ d. any (λ x. x == d) seen ≡ true) (λ x. not (x == c)) h.clients
                  i.clients_seen)
                λ d k. k.0;
          closed_seen = λ d k. elim (Bool-cases (d == c)) [
            | inl own ↦ subst (λ j. any (λ x. x == j) seen ≡ true) (sym ((==_iff d c).0 own)) known
            | inr other ↦ i.closed_seen d (ground (arith, other, k))
          ];
          fits = λ d. ground (arith, i.fits d, i.fits c);
          queue_fits = i.queue_fits;
        })
]

deliver_keeps :
    (seen : List ℕ) (h : Hub) (texts : List String)
    → Inv seen h
    → length texts ≤ broadcast_size
    → Ensures (deliver_from texts h) (Inv seen)
unfolding deliver_from
deliver_keeps seen h [] i fits = i
deliver_keeps seen h (text ∷ texts) i fits =
    Ensures->>= (Kept h.channel) (Inv seen) (send_all text h.clients h.channel) _
      (send_all-Kept text h.clients h.channel i.open_clients i.fits)
      λ channel k. record {
        open_clients = All-mono h.clients i.open_clients λ d e. k.ends d ∙ e;
        clients_seen = i.clients_seen;
        closed_seen = λ d e. i.closed_seen d (sym (k.ends d) ∙ e);
        fits = k.fits;
        queue_fits = omega (arith, fits);
      }

fewer : (texts : List String) → length (without_first texts) ≤ length texts
unfolding without_first
fewer [] = omega arith
fewer (text ∷ texts) = omega arith

receive_keeps : (seen : List ℕ) (h : Hub) (c : ℕ) → Inv seen h → Inv seen (receive c h)
unfolding receive set_channel
receive_keeps seen h c i = record {
  open_clients = All-mono h.clients i.open_clients λ d e. same_end d ∙ e;
  clients_seen = i.clients_seen;
  closed_seen = λ d e. i.closed_seen d (sym (same_end d) ∙ e);
  fits = λ d. ground (arith, i.fits d, i.fits c, fewer (h.channel c).waiting);
  queue_fits = i.queue_fits;
}
  where
    same_end : (d : ℕ) → ((receive c h).channel d).closed ≡ (h.channel d).closed
    same_end d = ground arith

broadcast_keeps :
    (seen : List ℕ) (h : Hub) (text : String) → Inv seen h → Inv seen (broadcast text h)
unfolding broadcast
broadcast_keeps seen h text i = elim (Bool-cases (ltb (length h.queue) broadcast_size)) [
  | inr e ↦ rw e i
  | inl e ↦ rw e (record {
    open_clients = i.open_clients;
    clients_seen = i.clients_seen;
    closed_seen = i.closed_seen;
    fits = i.fits;
    queue_fits = ground (arith, e, length-append h.queue (text ∷ []));
  })
]

run_keeps :
    (seen : List ℕ) (es : List Event) (h : Hub)
    → Inv seen h
    → AreNew seen es
    → Ensures (run es h) (λ h'. (seen' : List ℕ) × Inv seen' h')
unfolding run step AreNew
run_keeps seen [] h i new = (seen, i)
run_keeps seen (connects c ∷ es) h i (fresh, new) =
    run_keeps (c ∷ seen) es (register c h) (register_keeps seen h c i fresh) new
run_keeps seen (disconnects c ∷ es) h i new =
    Ensures->>= (Inv seen) _ (unregister c h) _ (unregister_keeps seen h c i)
      λ h' i'. run_keeps seen es h' i' new
run_keeps seen (reads c ∷ es) h i new =
    run_keeps seen es (receive c h) (receive_keeps seen h c i) new
run_keeps seen (broadcasts text ∷ es) h i new =
    run_keeps seen es (broadcast text h) (broadcast_keeps seen h text i) new
run_keeps seen (delivers ∷ es) h i new =
    Ensures->>= (Inv seen) _ (deliver_next h) _ (deliver_keeps seen h h.queue i i.queue_fits)
      λ h' i'. run_keeps seen es h' i' new

-- Whatever happens to a new hub, in whatever order, as long as no client connects twice, it never
-- panics: it closes no channel twice, and sends to no closed one. No client has more than 64
-- messages waiting, and no more than 256 wait to be sent.
pub run_is_safe :
    (es : List Event)
    → AreNew [] es
    → Ensures
        (run es new_hub)
        (λ h. ((c : ℕ) → length (h.channel c).waiting ≤ 64) × (length h.queue ≤ 256))
run_is_safe es new =
    Ensures-mono (λ h. (seen : List ℕ) × Inv seen h) _ (run es new_hub)
      (run_keeps [] es new_hub
        (record {
          open_clients = tt;
          clients_seen = tt;
          closed_seen = λ c e. absurd (ground arith);
          fits = λ c. omega arith;
          queue_fits = omega arith;
        })
        new)
      λ h i. (i.1.fits, i.1.queue_fits)
