-- ===== src/UdpgwServer/Supervised.antt =====
-- bin/udpgw_server.rs: in any order of the tasks, a session in the map is that of its connection's
-- last request, and a relay task that runs owns one or is about to end.
use tun2proxy.UdpgwServer.Relays.{IsSoundServer, Stepped-IsSound, opened-IsSound}
use tun2proxy.UdpgwServer.Requests.{Waits, dispatch-Handled, open_session-Opened}
use tun2proxy.UdpgwServer.Current.{IsCurrent, is_own_of}
use tun2proxy.UdpgwServer.Effects.{relay_step-Stepped}
use tun2proxy.UdpgwServer.Schedule.{
  clean_up_client, cancel_all, write_step, reply_step, count_elsewhere, client_step, step,
  is_deliverable,
}
use tun2proxy.UdpgwServer.Tasks.{
  Event, Server, RelayEvent, receive, resolved, reply, relay_event, write, elsewhere, disconnect,
  receive_step, resolved_step,
}
use tun2proxy.UdpgwServer.{
  UdpGwArgs, ClientSessions, Session, OutboundItem, Reader, awaiting, resolving, replying, contains,
  open_session, outbound_capacity,
}
use tun2proxy.Maps.Assoc.{lookup}
use tun2proxy.Udpgw.{AddressCodec, Packet}
use tun2proxy.Proxy.{SocketAddr}
use tun2proxy.Prelude.{
  refl, true, false, some, inl, inr, [], ◌∷◌, ◌+◌, ◌%◌, ◌^◌, ◌≡◌, arith, Option, ℕ, Bool, eqb, ltb,
  List, length, nat_eq, Bool-cases, Option-cases, if◌then◌else◌, subst,
}

-- The table of the relays and the reader, of a state whose sessions are all stopped.
contains-cancel_all :
    (c g : ℕ) (sessions : List (ℕ × Session)) (cancelled : List ℕ)
    → contains g cancelled ≡ true
    → contains g (cancel_all sessions cancelled) ≡ true
unfolding cancel_all
contains-cancel_all c g [] cancelled h = h
contains-cancel_all c g ((d, x) ∷ sessions) cancelled h =
    contains-cancel_all c g sessions (x.generation ∷ cancelled) (ground (arith, h))

cancel_all-found :
    (c g : ℕ) (x : Session) (sessions : List (ℕ × Session)) (cancelled : List ℕ)
    → lookup c sessions ≡ some x
    → x.generation ≡ g
    → contains g (cancel_all sessions cancelled) ≡ true
unfolding cancel_all
cancel_all-found c g x [] cancelled found same = ground arith
cancel_all-found c g x ((d, y) ∷ sessions) cancelled found same = elim (Bool-cases (eqb d c)) [
  | inl e ↦
      contains-cancel_all c g sessions (y.generation ∷ cancelled)
        (ground (arith, same, (rw e at found)))
  | inr e ↦ cancel_all-found c g x sessions (y.generation ∷ cancelled) (rw e at found) same
]

emptied-Waits :
    (st : ClientSessions) (cancelled : List ℕ) (reader : Reader)
    → Waits st reader
    → Waits (record st { sessions = []; cancelled = cancelled }) reader
emptied-Waits st cancelled awaiting w = tt
emptied-Waits st cancelled (replying item) w = tt
emptied-Waits st cancelled (resolving c g a bs) w = (w.0, refl)

clean_up_client-IsSound : (s : Server) → IsSoundServer s → IsSoundServer (clean_up_client s)
unfolding clean_up_client IsCurrent
clean_up_client-IsSound s sound = record {
  current = λ c x found. ground (arith, found);
  owned = λ g r found on. elim (sound.owned g r found on) [
    | inl stopped ↦ inl (contains-cancel_all r.conn_id g s.state.sessions s.state.cancelled stopped)
    | inr own ↦
        let (x, at, of_g) = is_own_of r.conn_id g s.state own in
        inl (cancel_all-found r.conn_id g x s.state.sessions s.state.cancelled at of_g)
  ];
  waits =
      emptied-Waits s.state (cancel_all s.state.sessions s.state.cancelled) s.reader sound.waits;
}

write_step-IsSound :
    (now : ℕ) (is_written : Bool) (queue : List OutboundItem) (s : Server)
    → IsSoundServer s
    → IsSoundServer (write_step now is_written queue s)
unfolding write_step
write_step-IsSound now is_written [] s sound = sound
write_step-IsSound now is_written (item ∷ queue) s sound =
    elim (Bool-cases (is_deliverable s.state item)) [
      | inr e ↦ rw (e, write_step) sound
      | inl e ↦ elim (Bool-cases is_written) [
        | inl f ↦ rw (e, f, write_step) sound
        | inr f ↦ rw (e, f, write_step) (clean_up_client-IsSound (record s { queue = queue }) sound)
      ]
    ]

reply_step-IsSound :
    (reader : Reader) (s : Server) → IsSoundServer s → IsSoundServer (reply_step reader s)
unfolding reply_step
reply_step-IsSound awaiting s sound = sound
reply_step-IsSound (resolving c g a bs) s sound = sound
reply_step-IsSound (replying item) s sound =
    elim (Bool-cases (ltb (length s.queue) outbound_capacity)) [
      | inl room ↦
          rw (room, reply_step)
            (record { current = sound.current; owned = sound.owned; waits = tt })
      | inr full ↦ rw (full, reply_step) sound
    ]

counted-Waits :
    (st : ClientSessions) (n : ℕ) (reader : Reader)
    → Waits st reader
    → Waits (record st { next_generation = n }) reader
counted-Waits st n awaiting w = tt
counted-Waits st n (replying item) w = tt
counted-Waits st n (resolving c g a bs) w = w

module _ (C : AddressCodec) (args : UdpGwArgs) where
  receive_step-IsSound :
      (now : ℕ) (is_sent : Bool) (packet : Packet) (reader : Reader) (s : Server)
      → IsSoundServer s
      → IsSoundServer (receive_step C args now is_sent packet reader s)
  unfolding receive_step
  receive_step-IsSound now is_sent packet awaiting s sound =
      let handled = dispatch-Handled C args now is_sent packet s.state in
      record {
        current = handled.current sound.current;
        owned = λ g r found on. handled.owned r.conn_id g (sound.owned g r found on);
        waits = handled.waits;
      }
  receive_step-IsSound now is_sent packet (resolving c g a bs) s sound = sound
  receive_step-IsSound now is_sent packet (replying item) s sound = sound

  resolved_step-IsSound :
      (now : ℕ) (dst : Option SocketAddr) (bound is_sent : Bool) (reader : Reader) (s : Server)
      → s.reader ≡ reader
      → IsSoundServer s
      → IsSoundServer (resolved_step C args now dst bound is_sent reader s)
  unfolding resolved_step
  resolved_step-IsSound now dst bound is_sent awaiting s at sound = sound
  resolved_step-IsSound now dst bound is_sent (replying item) s at sound = sound
  resolved_step-IsSound now dst bound is_sent (resolving c g a bs) s at sound =
      opened-IsSound s.state c g a bs s.relays (open_session now dst bound is_sent c g a s.state)
        (open_session-Opened now dst bound is_sent c g a s.state)
        (record {
          current = sound.current;
          owned = sound.owned;
          waits = subst (Waits s.state) at sound.waits;
        })

  client_step-IsSound :
      (event : Event) (s : Server) → IsSoundServer s → IsSoundServer (client_step C args event s)
  unfolding client_step
  client_step-IsSound (receive now is_sent packet) s sound =
      receive_step-IsSound now is_sent packet s.reader s sound
  client_step-IsSound (resolved now dst bound is_sent) s sound =
      resolved_step-IsSound now dst bound is_sent s.reader s refl sound
  client_step-IsSound reply s sound = reply_step-IsSound s.reader s sound
  client_step-IsSound (write now is_written) s sound =
      write_step-IsSound now is_written s.queue s sound
  client_step-IsSound disconnect s sound = clean_up_client-IsSound s sound
  client_step-IsSound (relay_event now g event) s sound = sound
  client_step-IsSound elsewhere s sound = sound

  relay_event-IsSound :
      (now g : ℕ) (event : RelayEvent) (s : Server)
      → IsSoundServer s
      → IsSoundServer (step C args (relay_event now g event) s)
  unfolding step
  relay_event-IsSound now g event s sound = elim (Option-cases (lookup g s.relays)) [
    | inl e ↦ rw (e, step) sound
    | inr (r, e) ↦
        rw (e, step)
          (Stepped-IsSound g r s _ e (relay_step-Stepped C args now g event r r.phase s refl) sound)
  ]

  either-IsSound :
      (b : Bool) (s t : Server)
      → IsSoundServer s
      → IsSoundServer t
      → IsSoundServer (if b then s else t)
  either-IsSound true s t a a' = a
  either-IsSound false s t a a' = a'

  if_open-IsSound :
      (event : Event) (s : Server)
      → IsSoundServer s
      → IsSoundServer (if s.is_open then client_step C args event s else s)
  if_open-IsSound event s sound =
      either-IsSound s.is_open (client_step C args event s) s (client_step-IsSound event s sound)
        sound

  pub step-IsSound :
      (event : Event) (s : Server) → IsSoundServer s → IsSoundServer (step C args event s)
  unfolding step count_elsewhere IsCurrent
  step-IsSound (relay_event now g event) s sound = relay_event-IsSound now g event s sound
  step-IsSound elsewhere s sound = record {
    current = sound.current;
    owned = sound.owned;
    waits = counted-Waits s.state ((s.state.next_generation + 1) % 2 ^ 64) s.reader sound.waits;
  }
  step-IsSound (receive now is_sent packet) s sound = if_open-IsSound _ s sound
  step-IsSound (resolved now dst bound is_sent) s sound = if_open-IsSound _ s sound
  step-IsSound reply s sound = if_open-IsSound _ s sound
  step-IsSound (write now is_written) s sound = if_open-IsSound _ s sound
  step-IsSound disconnect s sound = if_open-IsSound _ s sound
