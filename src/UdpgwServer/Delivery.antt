-- ===== src/UdpgwServer/Delivery.antt =====
-- bin/udpgw_server.rs: what the writer may still send to the client after a request has replaced or
-- closed a session, in any order of the tasks.
use tun2proxy.UdpgwServer.Generations.{Advances, step-Advances}
use tun2proxy.UdpgwServer.Schedule.{
  is_deliverable, write_step, clean_up_client, step, run, client_step, reply_step, count_elsewhere,
}
use tun2proxy.UdpgwServer.Tasks.{
  Event, Server, RelayEvent, receive, resolved, reply, relay_event, write, elsewhere, disconnect,
  receive_step, resolved_step, relay_step, datagram, silence, broken_socket, offer, clean_up,
}
use tun2proxy.UdpgwServer.{
  UdpGwArgs, ClientSessions, OutboundItem, Reader, Relay, Phase, awaiting, replying, resolving,
  listening, offering, leaving, ended,
}
use tun2proxy.Maps.Assoc.{lookup}
use tun2proxy.Udpgw.{AddressCodec, Packet}
use tun2proxy.Proxy.{SocketAddr}
use tun2proxy.Prelude.{
  refl, true, false, some, inl, inr, [], ◌∷◌, ◌+◌, ◌^◌, ◌≡◌, ◌≤◌, ◌<◌, ◌⊎◌, ◌++◌, arith, Option, ℕ,
  Bool, List, length, nat_eq, Bool-cases, Option-cases, if◌then◌else◌, sym, ◌∙◌, ap, append-nil,
  append_assoc,
}

-- The item has no generation, or that of its connection, or one that the counter has not given yet.
unfoldable pub IsFresh : ClientSessions → OutboundItem → Type 0
IsFresh st item =
    (g : ℕ)
    → item.generation ≡ some g
    → (lookup item.packet.header.conn_id st.generations ≡ some g) ⊎ (st.next_generation ≤ g)

unfoldable pub AllFresh : ClientSessions → List OutboundItem → Type 0
AllFresh st [] = Unit
AllFresh st (item ∷ items) = IsFresh st item × AllFresh st items

-- The second list is the first with fresh items after it.
unfoldable pub Grows : ClientSessions → List OutboundItem → List OutboundItem → Type 0
Grows st items items' = (new : List OutboundItem) × (items' ≡ items ++ new) × AllFresh st new

is_deliverable-IsFresh :
    (st : ClientSessions) (item : OutboundItem) → is_deliverable st item ≡ true → IsFresh st item
unfolding is_deliverable IsFresh
is_deliverable-IsFresh st item h g e =
    elim (Option-cases (lookup item.packet.header.conn_id st.generations)) [
      | inl absent ↦ ground (arith, (rw (e, absent, is_deliverable) at h))
      | inr (c, found) ↦ inl (ground (arith, found, (rw (e, found, is_deliverable) at h)))
    ]

same-Grows :
    (st : ClientSessions) (items items' : List OutboundItem)
    → items' ≡ items
    → Grows st items items'
unfolding Grows AllFresh
same-Grows st items items' e = ([], e ∙ sym (append-nil items), tt)

write_step-Grows :
    (now : ℕ) (is_written : Bool) (queue : List OutboundItem) (s : Server)
    → Grows s.state s.written (write_step now is_written queue s).written
unfolding write_step clean_up_client Grows AllFresh
write_step-Grows now is_written [] s = same-Grows s.state _ _ refl
write_step-Grows now is_written (item ∷ queue) s = elim (Bool-cases (is_deliverable s.state item)) [
  | inr e ↦ rw (e, write_step) (same-Grows s.state _ _ refl)
  | inl e ↦ elim (Bool-cases is_written) [
    | inl f ↦ rw (e, f, write_step) (item ∷ [], refl, (is_deliverable-IsFresh s.state item e, tt))
    | inr f ↦ rw (e, f, write_step) (same-Grows s.state _ _ refl)
  ]
]

reply_step-written : (reader : Reader) (s : Server) → (reply_step reader s).written ≡ s.written
unfolding reply_step
reply_step-written awaiting s = refl
reply_step-written (resolving c g a bs) s = refl
reply_step-written (replying item) s = ground arith

module _ (C : AddressCodec) (args : UdpGwArgs) where
  receive_step-written :
      (now : ℕ) (is_sent : Bool) (packet : Packet) (reader : Reader) (s : Server)
      → (receive_step C args now is_sent packet reader s).written ≡ s.written
  unfolding receive_step
  receive_step-written now is_sent packet awaiting s = refl
  receive_step-written now is_sent packet (resolving c g a bs) s = refl
  receive_step-written now is_sent packet (replying item) s = refl

  resolved_step-written :
      (now : ℕ) (dst : Option SocketAddr) (bound is_sent : Bool) (reader : Reader) (s : Server)
      → (resolved_step C args now dst bound is_sent reader s).written ≡ s.written
  unfolding resolved_step
  resolved_step-written now dst bound is_sent awaiting s = refl
  resolved_step-written now dst bound is_sent (resolving c g a bs) s = refl
  resolved_step-written now dst bound is_sent (replying item) s = refl

  relay_step-written :
      (now g : ℕ) (event : RelayEvent) (r : Relay) (phase : Phase) (s : Server)
      → (relay_step C args now g event r phase s).written ≡ s.written
  unfolding relay_step
  relay_step-written now g event r listening s = refl
  relay_step-written now g offer r (offering item) s = ground arith
  relay_step-written now g clean_up r leaving s = refl
  relay_step-written now g (datagram source bytes) r (offering item) s = refl
  relay_step-written now g silence r (offering item) s = refl
  relay_step-written now g broken_socket r (offering item) s = refl
  relay_step-written now g clean_up r (offering item) s = refl
  relay_step-written now g (datagram source bytes) r leaving s = refl
  relay_step-written now g silence r leaving s = refl
  relay_step-written now g broken_socket r leaving s = refl
  relay_step-written now g offer r leaving s = refl
  relay_step-written now g event r ended s = refl

  client_step-Grows :
      (event : Event) (s : Server) → Grows s.state s.written (client_step C args event s).written
  unfolding client_step clean_up_client
  client_step-Grows (receive now is_sent packet) s =
      same-Grows s.state _ _ (receive_step-written now is_sent packet s.reader s)
  client_step-Grows (resolved now dst bound is_sent) s =
      same-Grows s.state _ _ (resolved_step-written now dst bound is_sent s.reader s)
  client_step-Grows reply s = same-Grows s.state _ _ (reply_step-written s.reader s)
  client_step-Grows (write now is_written) s = write_step-Grows now is_written s.queue s
  client_step-Grows disconnect s = same-Grows s.state _ _ refl
  client_step-Grows (relay_event now g event) s = same-Grows s.state _ _ refl
  client_step-Grows elsewhere s = same-Grows s.state _ _ refl

  either-Grows :
      (b : Bool) (st : ClientSessions) (items : List OutboundItem) (s t : Server)
      → Grows st items s.written
      → Grows st items t.written
      → Grows st items (if b then s else t).written
  either-Grows true st items s t a a' = a
  either-Grows false st items s t a a' = a'

  if_open-Grows :
      (event : Event) (s : Server)
      → Grows s.state s.written (if s.is_open then client_step C args event s else s).written
  if_open-Grows event s =
      either-Grows s.is_open s.state s.written (client_step C args event s) s
        (client_step-Grows event s) (same-Grows s.state _ _ refl)

  relay_event-Grows :
      (now g : ℕ) (event : RelayEvent) (s : Server)
      → Grows s.state s.written (step C args (relay_event now g event) s).written
  unfolding step
  relay_event-Grows now g event s = elim (Option-cases (lookup g s.relays)) [
    | inl e ↦ rw (e, step) (same-Grows s.state _ _ refl)
    | inr (r, e) ↦
        rw (e, step) (same-Grows s.state _ _ (relay_step-written now g event r r.phase s))
  ]

  step-Grows : (event : Event) (s : Server) → Grows s.state s.written (step C args event s).written
  unfolding step count_elsewhere
  step-Grows (relay_event now g event) s = relay_event-Grows now g event s
  step-Grows elsewhere s = same-Grows s.state _ _ refl
  step-Grows (receive now is_sent packet) s = if_open-Grows _ s
  step-Grows (resolved now dst bound is_sent) s = if_open-Grows _ s
  step-Grows reply s = if_open-Grows _ s
  step-Grows (write now is_written) s = if_open-Grows _ s
  step-Grows disconnect s = if_open-Grows _ s

-- What is fresh later is fresh before.
AllFresh-Advances :
    (st st' : ClientSessions) (items : List OutboundItem)
    → Advances st st'
    → AllFresh st' items
    → AllFresh st items
unfolding AllFresh IsFresh
AllFresh-Advances st st' [] a f = tt
AllFresh-Advances st st' (item ∷ items) a (f, fs) = (
  λ g e. elim (f g e) [
    | inl found ↦ a.is_new item.packet.header.conn_id g found
    | inr later ↦ let le = a.counted in inr (omega (arith, le))
  ],
  AllFresh-Advances st st' items a fs,
)

AllFresh-append :
    (st : ClientSessions) (xs ys : List OutboundItem)
    → AllFresh st xs
    → AllFresh st ys
    → AllFresh st (xs ++ ys)
unfolding AllFresh
AllFresh-append st [] ys f f' = f'
AllFresh-append st (x ∷ xs) ys (f, fs) f' = (f, AllFresh-append st xs ys fs f')

Grows-trans :
    (st st' : ClientSessions) (xs ys zs : List OutboundItem)
    → Advances st st'
    → Grows st xs ys
    → Grows st' ys zs
    → Grows st xs zs
unfolding Grows
Grows-trans st st' xs ys zs a (new, e, f) (new', e', f') = (
  new ++ new',
  e' ∙ ap (◌++ new') e ∙ append_assoc xs new new',
  AllFresh-append st new new' f (AllFresh-Advances st st' new' a f'),
)

module _ (C : AddressCodec) (args : UdpGwArgs) where
  pub run_written :
      (events : List Event) (s : Server)
      → s.state.next_generation + length events < 2 ^ 64
      → Grows s.state s.written (run C args events s).written
  unfolding run
  run_written [] s room = same-Grows s.state _ _ refl
  run_written (event ∷ events) s room =
      let a = step-Advances C args event s (omega arith) in
      let le = a.by_one in
      Grows-trans s.state (step C args event s).state s.written (step C args event s).written
        (run C args (event ∷ events) s).written a (step-Grows C args event s)
        (run_written events (step C args event s) (omega (arith, le)))
