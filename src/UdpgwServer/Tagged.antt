-- ===== src/UdpgwServer/Tagged.antt =====
-- bin/udpgw_server.rs: every item on its way to the client has the generation of its request, or
-- answers a keepalive.
use tun2proxy.UdpgwServer.Schedule.{
  step, run, client_step, reply_step, write_step, clean_up_client, count_elsewhere, connected,
  is_deliverable,
}
use tun2proxy.UdpgwServer.Tasks.{
  Event, Server, RelayEvent, receive, resolved, reply, relay_event, write, elsewhere, disconnect,
  receive_step, resolved_step, relay_step, datagram, silence, broken_socket, offer, clean_up,
  listen, on_stranger, on_silence, reply_packet, dispatch, spawned, is_expired, idle_for, idle_ms,
}
use tun2proxy.UdpgwServer.{
  UdpGwArgs, ClientSessions, OutboundItem, Reader, Relay, Phase, awaiting, replying, resolving,
  listening, offering, leaving, ended, has_value, process_udp, open_session, reusable, is_cancelled,
  put, outbound_capacity,
}
use tun2proxy.Maps.Assoc.{lookup, without}
use tun2proxy.Udpgw.{
  AddressCodec, Packet, build_keepalive_packet, keepalive_flag, close_flag, data_flag,
}
use tun2proxy.Proxy.{SocketAddr}
use tun2proxy.Socks.{Address}
use tun2proxy.UdpBypass.{addr_eq}
use tun2proxy.Prelude.{
  refl, true, false, none, some, inl, inr, [], ◌∷◌, ◌≡◌, ◌⊎◌, ◌++◌, Option, ℕ, Bool, List, ltb, leb,
  eqb, not, length, nat_eq, Bool-cases, Option-cases, if◌then◌else◌, ◌==◌, subst, bytes_eq,
}

abbrev pub IsTagged : OutboundItem → Type 0
IsTagged item =
    (has_value item.generation ≡ true)
    ⊎ (item.packet ≡ build_keepalive_packet item.packet.header.conn_id)

unfoldable pub AllTagged : List OutboundItem → Type 0
AllTagged [] = Unit
AllTagged (item ∷ items) = IsTagged item × AllTagged items

pub AllTagged-append :
    (xs ys : List OutboundItem) → AllTagged xs → AllTagged ys → AllTagged (xs ++ ys)
unfolding AllTagged
AllTagged-append [] ys p q = q
AllTagged-append (x ∷ xs) ys (p, ps) q = (p, AllTagged-append xs ys ps q)

pub AllTagged-after : (xs ys : List OutboundItem) → AllTagged (xs ++ ys) → AllTagged ys
unfolding AllTagged
AllTagged-after [] ys p = p
AllTagged-after (x ∷ xs) ys (p, ps) = AllTagged-after xs ys ps

snoc-AllTagged :
    (xs : List OutboundItem) (x : OutboundItem)
    → AllTagged xs
    → IsTagged x
    → AllTagged (xs ++ x ∷ [])
unfolding AllTagged
snoc-AllTagged xs x p q = AllTagged-append xs (x ∷ []) p (q, tt)

abbrev pub TaggedReader : Reader → Type 0
TaggedReader (replying item) = IsTagged item
TaggedReader _ = Unit

abbrev pub TaggedPhase : Phase → Type 0
TaggedPhase (offering item) = IsTagged item
TaggedPhase _ = Unit

unfoldable pub TaggedRelays : List (ℕ × Relay) → Type 0
TaggedRelays [] = Unit
TaggedRelays ((g, r) ∷ rs) = TaggedPhase r.phase × TaggedRelays rs

lookup-Tagged :
    (g : ℕ) (rs : List (ℕ × Relay)) (r : Relay)
    → TaggedRelays rs
    → lookup g rs ≡ some r
    → TaggedPhase r.phase
unfolding TaggedRelays
lookup-Tagged g [] r p h = cc
lookup-Tagged g ((k, x) ∷ rs) r (p, ps) h = elim (Bool-cases (k == g)) [
  | inl same ↦
      let e : some x ≡ some r = rw (same, lookup) at h in
      let e' : x ≡ r = cc in subst (λ (q : Relay). TaggedPhase q.phase) e' p
  | inr other ↦ lookup-Tagged g rs r ps (rw (other, lookup) at h)
]

without-Tagged : (g : ℕ) (rs : List (ℕ × Relay)) → TaggedRelays rs → TaggedRelays (without g rs)
unfolding TaggedRelays
without-Tagged g [] p = tt
without-Tagged g ((k, x) ∷ rs) (p, ps) = elim (Bool-cases (k == g)) [
  | inl same ↦ rw same (without-Tagged g rs ps)
  | inr other ↦ rw other (p, without-Tagged g rs ps)
]

snoc-Tagged :
    (g : ℕ) (r : Relay) (rs : List (ℕ × Relay))
    → TaggedRelays rs
    → TaggedPhase r.phase
    → TaggedRelays (rs ++ (g, r) ∷ [])
unfolding TaggedRelays
snoc-Tagged g r [] p q = (q, tt)
snoc-Tagged g r ((k, x) ∷ rs) (p, ps) q = (p, snoc-Tagged g r rs ps q)

put-Tagged :
    (g : ℕ) (r : Relay) (rs : List (ℕ × Relay))
    → TaggedRelays rs
    → TaggedPhase r.phase
    → TaggedRelays (put g r rs)
put-Tagged g r rs p q = snoc-Tagged g r (without g rs) (without-Tagged g rs p) q

-- The items of a client: written, queued, and on their way to the queue.
pub record IsTaggedServer (s : Server) : Type 0 where
  pub all_written : AllTagged s.written
  pub all_queued : AllTagged s.queue
  pub reader_item : TaggedReader s.reader
  pub relay_items : TaggedRelays s.relays

either-TaggedServer :
    (b : Bool) (x y : Server)
    → IsTaggedServer x
    → IsTaggedServer y
    → IsTaggedServer (if b then x else y)
either-TaggedServer true x y p q = p
either-TaggedServer false x y p q = q

on_silence-Tagged :
    (args : UdpGwArgs) (now conn_id g : ℕ) (st : ClientSessions)
    → TaggedPhase (on_silence args now conn_id g st).1
unfolding on_silence
on_silence-Tagged args now conn_id g st = elim (Option-cases (idle_for now conn_id g st)) [
  | inl e ↦ rw (e, on_silence) tt
  | inr (idle, e) ↦ elim (Bool-cases (leb (idle_ms args) idle)) [
    | inl f ↦ rw (e, f, on_silence) tt
    | inr f ↦ rw (e, f, on_silence) tt
  ]
]

on_stranger-Tagged :
    (args : UdpGwArgs) (now conn_id g : ℕ) (st : ClientSessions)
    → TaggedPhase (on_stranger args now conn_id g st).1
unfolding on_stranger
on_stranger-Tagged args now conn_id g st =
    elim (Bool-cases (is_expired (idle_ms args) (idle_for now conn_id g st))) [
      | inl f ↦ rw (f, on_stranger) tt
      | inr f ↦ rw (f, on_stranger) tt
    ]

reply_step-Tagged :
    (reader : Reader) (s : Server)
    → TaggedReader reader
    → IsTaggedServer s
    → IsTaggedServer (reply_step reader s)
unfolding reply_step
reply_step-Tagged awaiting s t i = i
reply_step-Tagged (resolving c g a bs) s t i = i
reply_step-Tagged (replying item) s t i =
    elim (Bool-cases (ltb (length s.queue) outbound_capacity)) [
      | inl f ↦
          rw (f, reply_step)
            (record {
              all_written = i.all_written;
              all_queued = snoc-AllTagged s.queue item i.all_queued t;
              reader_item = tt;
              relay_items = i.relay_items;
            })
      | inr f ↦ rw (f, reply_step) i
    ]

write_step-Tagged :
    (now : ℕ) (is_written : Bool) (queue : List OutboundItem) (s : Server)
    → AllTagged queue
    → IsTaggedServer s
    → IsTaggedServer (write_step now is_written queue s)
unfolding write_step clean_up_client AllTagged
write_step-Tagged now is_written [] s q i = i
write_step-Tagged now is_written (item ∷ queue) s (t, q) i =
    elim (Bool-cases (is_deliverable s.state item)) [
      | inr f ↦
          rw (f, write_step)
            (record {
              all_written = i.all_written;
              all_queued = q;
              reader_item = i.reader_item;
              relay_items = i.relay_items;
            })
      | inl f ↦ elim (Bool-cases is_written) [
        | inl k ↦
            rw (f, k, write_step)
              (record {
                all_written = snoc-AllTagged s.written item i.all_written t;
                all_queued = q;
                reader_item = i.reader_item;
                relay_items = i.relay_items;
              })
        | inr k ↦
            rw (f, k, write_step)
              (record {
                all_written = i.all_written;
                all_queued = q;
                reader_item = i.reader_item;
                relay_items = i.relay_items;
              })
      ]
    ]

process_udp-Tagged :
    (udp_mtu now : ℕ) (is_sent : Bool) (packet : Packet) (st : ClientSessions)
    → TaggedReader (process_udp udp_mtu now is_sent packet st).1
unfolding process_udp
process_udp-Tagged udp_mtu now is_sent packet st = elim (Option-cases packet.address) [
  | inl e ↦ rw (e, process_udp) (inl refl)
  | inr (a, e) ↦ elim (Bool-cases (ltb udp_mtu (length packet.payload))) [
    | inl long ↦ rw (e, long, process_udp) (inl refl)
    | inr fits ↦ elim (Option-cases (reusable packet.header.conn_id a st)) [
      | inl f ↦ rw (e, fits, f, process_udp) tt
      | inr (session, f) ↦ elim (Bool-cases is_sent) [
        | inl k ↦ rw (e, fits, f, k, process_udp) tt
        | inr k ↦ rw (e, fits, f, k, process_udp) (inl refl)
      ]
    ]
  ]
]

open_session-Tagged :
    (now : ℕ) (dst : Option SocketAddr) (bound is_sent : Bool) (conn_id g : ℕ) (a : Address)
    (st : ClientSessions) (relays : List (ℕ × Relay))
    → TaggedRelays relays
    → TaggedReader (open_session now dst bound is_sent conn_id g a st).1
      × TaggedRelays (spawned g (open_session now dst bound is_sent conn_id g a st).2 relays)
unfolding open_session
open_session-Tagged now none bound is_sent conn_id g a st relays p = (inl refl, p)
open_session-Tagged now (some dst) false is_sent conn_id g a st relays p = (inl refl, p)
open_session-Tagged now (some dst) true false conn_id g a st relays p = (inl refl, p)
open_session-Tagged now (some dst) true true conn_id g a st relays p =
    (tt, put-Tagged g (record { conn_id = conn_id; dst = dst; phase = listening }) relays p tt)

module _ (C : AddressCodec) (args : UdpGwArgs) where
  listen-Tagged :
      (now g : ℕ) (r : Relay) (event : RelayEvent) (st : ClientSessions)
      → TaggedPhase (listen C args now g r event st).1
  unfolding listen
  listen-Tagged now g r (datagram source bytes) st = elim (Bool-cases (is_cancelled st g)) [
    | inl e ↦ rw (e, listen) tt
    | inr e ↦ elim (Bool-cases (not (source == r.dst))) [
      | inl f ↦ rw (e, f, listen) (on_stranger-Tagged args now r.conn_id g st)
      | inr f ↦ elim (Option-cases (reply_packet C args r.conn_id r.dst bytes)) [
        | inl k ↦ rw (e, f, k, listen) tt
        | inr (packet, k) ↦ rw (e, f, k, listen) (inl refl)
      ]
    ]
  ]
  listen-Tagged now g r silence st = elim (Bool-cases (is_cancelled st g)) [
    | inl e ↦ rw (e, listen) tt
    | inr e ↦ rw (e, listen) (on_silence-Tagged args now r.conn_id g st)
  ]
  listen-Tagged now g r broken_socket st = tt
  listen-Tagged now g r offer st = tt
  listen-Tagged now g r clean_up st = tt

  in_phase-Tagged :
      (g : ℕ) (r : Relay) (phase : Phase) (s : Server)
      → TaggedPhase phase
      → IsTaggedServer s
      → IsTaggedServer (record s { relays = put g (record r { phase = phase }) s.relays })
  in_phase-Tagged g r phase s t i = record {
    all_written = i.all_written;
    all_queued = i.all_queued;
    reader_item = i.reader_item;
    relay_items = put-Tagged g (record r { phase = phase }) s.relays i.relay_items t;
  }

  relay_step-Tagged :
      (now g : ℕ) (event : RelayEvent) (r : Relay) (phase : Phase) (s : Server)
      → TaggedPhase phase
      → IsTaggedServer s
      → IsTaggedServer (relay_step C args now g event r phase s)
  unfolding relay_step
  relay_step-Tagged now g event r listening s t i = record {
    all_written = i.all_written;
    all_queued = i.all_queued;
    reader_item = i.reader_item;
    relay_items =
        put-Tagged g (record r { phase = (listen C args now g r event s.state).1 }) s.relays
          i.relay_items (listen-Tagged now g r event s.state);
  }
  relay_step-Tagged now g offer r (offering item) s t i =
      elim (Bool-cases (is_cancelled s.state g)) [
        | inl e ↦ rw (e, relay_step) (in_phase-Tagged g r leaving s tt i)
        | inr e ↦ elim (Bool-cases (not s.is_open)) [
          | inl f ↦ rw (e, f, relay_step) (in_phase-Tagged g r leaving s tt i)
          | inr f ↦ elim (Bool-cases (ltb (length s.queue) outbound_capacity)) [
            | inr k ↦ rw (e, f, k, relay_step) i
            | inl k ↦
                rw (e, f, k, relay_step)
                  (record {
                    all_written = i.all_written;
                    all_queued = snoc-AllTagged s.queue item i.all_queued t;
                    reader_item = i.reader_item;
                    relay_items =
                        put-Tagged g (record r { phase = listening }) s.relays i.relay_items tt;
                  })
          ]
        ]
      ]
  relay_step-Tagged now g clean_up r leaving s t i = record {
    all_written = i.all_written;
    all_queued = i.all_queued;
    reader_item = i.reader_item;
    relay_items = put-Tagged g (record r { phase = ended }) s.relays i.relay_items tt;
  }
  relay_step-Tagged now g (datagram source bytes) r (offering item) s t i = i
  relay_step-Tagged now g silence r (offering item) s t i = i
  relay_step-Tagged now g broken_socket r (offering item) s t i = i
  relay_step-Tagged now g clean_up r (offering item) s t i = i
  relay_step-Tagged now g (datagram source bytes) r leaving s t i = i
  relay_step-Tagged now g silence r leaving s t i = i
  relay_step-Tagged now g broken_socket r leaving s t i = i
  relay_step-Tagged now g offer r leaving s t i = i
  relay_step-Tagged now g event r ended s t i = i

  dispatch-Tagged :
      (now : ℕ) (is_sent : Bool) (packet : Packet) (st : ClientSessions)
      → TaggedReader (dispatch C args now is_sent packet st).1
  unfolding dispatch
  dispatch-Tagged now is_sent packet st =
      elim (Bool-cases (eqb packet.header.flags keepalive_flag)) [
        | inl e ↦ rw (e, dispatch) (inr refl)
        | inr e ↦ elim (Bool-cases (eqb packet.header.flags close_flag)) [
          | inl f ↦ rw (e, f, dispatch) tt
          | inr f ↦ elim (Bool-cases (not (eqb packet.header.flags data_flag))) [
            | inl k ↦ rw (e, f, k, dispatch) (inl refl)
            | inr k ↦ rw (e, f, k, dispatch) (process_udp-Tagged args.udp_mtu now is_sent packet st)
          ]
        ]
      ]

  receive_step-Tagged :
      (now : ℕ) (is_sent : Bool) (packet : Packet) (reader : Reader) (s : Server)
      → IsTaggedServer s
      → IsTaggedServer (receive_step C args now is_sent packet reader s)
  unfolding receive_step
  receive_step-Tagged now is_sent packet awaiting s i = record {
    all_written = i.all_written;
    all_queued = i.all_queued;
    reader_item = dispatch-Tagged now is_sent packet s.state;
    relay_items = i.relay_items;
  }
  receive_step-Tagged now is_sent packet (resolving c g a bs) s i = i
  receive_step-Tagged now is_sent packet (replying item) s i = i

  resolved_step-Tagged :
      (now : ℕ) (dst : Option SocketAddr) (bound is_sent : Bool) (reader : Reader) (s : Server)
      → IsTaggedServer s
      → IsTaggedServer (resolved_step C args now dst bound is_sent reader s)
  unfolding resolved_step
  resolved_step-Tagged now dst bound is_sent awaiting s i = i
  resolved_step-Tagged now dst bound is_sent (resolving c g a bs) s i =
      let (t, p) = open_session-Tagged now dst bound is_sent c g a s.state s.relays i.relay_items in
      record {
        all_written = i.all_written;
        all_queued = i.all_queued;
        reader_item = t;
        relay_items = p;
      }
  resolved_step-Tagged now dst bound is_sent (replying item) s i = i

  client_step-Tagged :
      (event : Event) (s : Server) → IsTaggedServer s → IsTaggedServer (client_step C args event s)
  unfolding client_step clean_up_client
  client_step-Tagged (receive now is_sent packet) s i =
      receive_step-Tagged now is_sent packet s.reader s i
  client_step-Tagged (resolved now dst bound is_sent) s i =
      resolved_step-Tagged now dst bound is_sent s.reader s i
  client_step-Tagged reply s i = reply_step-Tagged s.reader s i.reader_item i
  client_step-Tagged (write now is_written) s i =
      write_step-Tagged now is_written s.queue s i.all_queued i
  client_step-Tagged disconnect s i = record {
    all_written = i.all_written;
    all_queued = i.all_queued;
    reader_item = i.reader_item;
    relay_items = i.relay_items;
  }
  client_step-Tagged (relay_event now g event) s i = i
  client_step-Tagged elsewhere s i = i

  relay_event-Tagged :
      (now g : ℕ) (event : RelayEvent) (s : Server)
      → IsTaggedServer s
      → IsTaggedServer (step C args (relay_event now g event) s)
  unfolding step
  relay_event-Tagged now g event s i = elim (Option-cases (lookup g s.relays)) [
    | inl e ↦ rw (e, step) i
    | inr (r, e) ↦
        rw (e, step)
          (relay_step-Tagged now g event r r.phase s (lookup-Tagged g s.relays r i.relay_items e) i)
  ]

  pub step-Tagged :
      (event : Event) (s : Server) → IsTaggedServer s → IsTaggedServer (step C args event s)
  unfolding step count_elsewhere
  step-Tagged (relay_event now g event) s i = relay_event-Tagged now g event s i
  step-Tagged elsewhere s i = record {
    all_written = i.all_written;
    all_queued = i.all_queued;
    reader_item = i.reader_item;
    relay_items = i.relay_items;
  }
  step-Tagged (receive now is_sent packet) s i =
      either-TaggedServer s.is_open (client_step C args (receive now is_sent packet) s) s
        (client_step-Tagged (receive now is_sent packet) s i) i
  step-Tagged (resolved now dst bound is_sent) s i =
      either-TaggedServer s.is_open (client_step C args (resolved now dst bound is_sent) s) s
        (client_step-Tagged (resolved now dst bound is_sent) s i) i
  step-Tagged reply s i =
      either-TaggedServer s.is_open (client_step C args reply s) s (client_step-Tagged reply s i) i
  step-Tagged (write now is_written) s i =
      either-TaggedServer s.is_open (client_step C args (write now is_written) s) s
        (client_step-Tagged (write now is_written) s i) i
  step-Tagged disconnect s i =
      either-TaggedServer s.is_open (client_step C args disconnect s) s
        (client_step-Tagged disconnect s i) i

  pub run-Tagged :
      (events : List Event) (s : Server) → IsTaggedServer s → IsTaggedServer (run C args events s)
  unfolding run
  run-Tagged [] s i = i
  run-Tagged (event ∷ events) s i = run-Tagged events (step C args event s) (step-Tagged event s i)

  -- Every client that has connected.
  pub run-connected-Tagged :
      (now next : ℕ) (events : List Event) → IsTaggedServer (run C args events (connected now next))
  unfolding AllTagged TaggedRelays
  run-connected-Tagged now next events =
      run-Tagged events (connected now next)
        (record { all_written = tt; all_queued = tt; reader_item = tt; relay_items = tt })
