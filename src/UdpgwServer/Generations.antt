-- ===== src/UdpgwServer/Generations.antt =====
-- bin/udpgw_server.rs: how the generations of the connections grow.
use tun2proxy.UdpgwServer.Effects.{relay_step-Stepped}
use tun2proxy.UdpgwServer.Sessions.{
  SameGenerations, open_session-SameGenerations, remove_session-SameGenerations,
  Stepped-SameGenerations,
}
use tun2proxy.UdpgwServer.Schedule.{
  clean_up_client, write_step, reply_step, count_elsewhere, client_step, step, is_deliverable,
}
use tun2proxy.UdpgwServer.Tasks.{
  Event, Server, RelayEvent, receive, resolved, reply, relay_event, write, elsewhere, disconnect,
  receive_step, resolved_step, dispatch,
}
use tun2proxy.UdpgwServer.{
  UdpGwArgs, ClientSessions, OutboundItem, Reader, awaiting, replying, resolving,
  replace_generation, close_session, process_udp, put, reusable,
}
use tun2proxy.UdpBypass.{addr_eq}
use tun2proxy.Maps.Assoc.{lookup, without, lookup-without, lookup-without_snoc}
use tun2proxy.Udpgw.{AddressCodec, Packet, keepalive_flag, close_flag, data_flag}
use tun2proxy.Proxy.{SocketAddr}
use tun2proxy.Prelude.{
  refl, true, false, some, inl, inr, [], ◌∷◌, ◌+◌, ◌%◌, ◌^◌, ◌≡◌, ◌≤◌, ◌<◌, ◌⊎◌, arith, Option, ℕ,
  Bool, eqb, ltb, List, length, nat_eq, not, Bool-cases, Option-cases, if◌then◌else◌, sym, ◌∙◌, ap,
  bytes_eq,
}

-- From a state to a later one: the counter grew by at most one, and a generation that was not there
-- is not below what the counter was.
pub record Advances (st st' : ClientSessions) : Type 0 where
  pub counted : st.next_generation ≤ st'.next_generation
  pub by_one : st'.next_generation ≤ st.next_generation + 1
  pub is_new :
      (conn_id g : ℕ)
      → lookup conn_id st'.generations ≡ some g
      → (lookup conn_id st.generations ≡ some g) ⊎ (st.next_generation ≤ g)

same-Advances : (st st' : ClientSessions) → SameGenerations st st' → Advances st st'
same-Advances st st' same = record {
  counted = ground (arith, same);
  by_one = ground (arith, same);
  is_new = λ conn_id g found. inl (ap (lookup conn_id) (sym same.0) ∙ found);
}

-- The counter has not reached the end of its 64 bits.
abbrev pub HasRoom : ClientSessions → Type 0
HasRoom st = st.next_generation + 1 < 2 ^ 64

then_same-Advances :
    (st st1 st2 : ClientSessions) → Advances st st1 → SameGenerations st1 st2 → Advances st st2
then_same-Advances st st1 st2 a same = record {
  counted = let le = a.counted in ground (arith, same, le);
  by_one = let le = a.by_one in ground (arith, same, le);
  is_new = λ conn_id g found. a.is_new conn_id g (ap (lookup conn_id) (sym same.0) ∙ found);
}

replace_generation-Advances :
    (conn_id : ℕ) (st : ClientSessions) → HasRoom st → Advances st (replace_generation conn_id st).0
unfolding replace_generation
replace_generation-Advances conn_id st room =
    let st1 : ClientSessions = record st {
      next_generation = (st.next_generation + 1) % 2 ^ 64;
      generations = put conn_id st.next_generation st.generations;
    } in
    then_same-Advances st st1 _
      (record {
        counted = omega arith;
        by_one = omega arith;
        is_new = λ c g found.
            let now =
              sym (lookup-without_snoc st.generations conn_id st.next_generation c) ∙ found in
            elim (Bool-cases (eqb conn_id c)) [
              | inl e ↦ inr (ground (arith, (rw e at now)))
              | inr e ↦ inl (rw e at now)
            ];
      })
      (remove_session-SameGenerations conn_id st1)

close_session-Advances :
    (conn_id : ℕ) (st : ClientSessions) → Advances st (close_session conn_id st).0
unfolding close_session
close_session-Advances conn_id st =
    let st1 : ClientSessions = record st { generations = without conn_id st.generations } in
    then_same-Advances st st1 _
      (record {
        counted = omega arith;
        by_one = omega arith;
        is_new = λ c g found.
            let now = sym (lookup-without conn_id c st.generations) ∙ found in
            elim (Bool-cases (eqb conn_id c)) [
              | inl e ↦ ground (arith, (rw e at now))
              | inr e ↦ inl (rw e at now)
            ];
      })
      (remove_session-SameGenerations conn_id st1)

process_udp-Advances :
    (mtu now : ℕ) (is_sent : Bool) (packet : Packet) (st : ClientSessions)
    → HasRoom st
    → Advances st (process_udp mtu now is_sent packet st).0
unfolding process_udp
process_udp-Advances mtu now is_sent packet st room =
    let replaced = replace_generation-Advances packet.header.conn_id st room in
    elim (Option-cases packet.address) [
      | inl e ↦ rw (e, process_udp) replaced
      | inr (req, e) ↦ elim (Bool-cases (ltb mtu (length packet.payload))) [
        | inl long ↦ rw (e, long, process_udp) replaced
        | inr fits ↦ elim (Option-cases (reusable packet.header.conn_id req st)) [
          | inl other ↦ rw (e, fits, other, process_udp) replaced
          | inr (old, again) ↦ rw (e, fits, again, process_udp) (same-Advances st _ (refl, refl))
        ]
      ]
    ]

module _ (C : AddressCodec) (args : UdpGwArgs) where
  dispatch-Advances :
      (now : ℕ) (is_sent : Bool) (packet : Packet) (st : ClientSessions)
      → HasRoom st
      → Advances st (dispatch C args now is_sent packet st).0
  unfolding dispatch
  dispatch-Advances now is_sent packet st room =
      let conn_id = packet.header.conn_id in
      elim (Bool-cases (eqb packet.header.flags keepalive_flag)) [
        | inl e ↦ rw (e, dispatch) (same-Advances st st (refl, refl))
        | inr e ↦ elim (Bool-cases (eqb packet.header.flags close_flag)) [
          | inl f ↦ rw (e, f, dispatch) (close_session-Advances conn_id st)
          | inr f ↦ elim (Bool-cases (not (eqb packet.header.flags data_flag))) [
            | inl odd ↦ rw (e, f, odd, dispatch) (replace_generation-Advances conn_id st room)
            | inr plain ↦
                rw (e, f, plain, dispatch)
                  (process_udp-Advances args.udp_mtu now is_sent packet st room)
          ]
        ]
      ]

  write_step-SameGenerations :
      (now : ℕ) (is_written : Bool) (queue : List OutboundItem) (s : Server)
      → SameGenerations s.state (write_step now is_written queue s).state
  unfolding write_step clean_up_client
  write_step-SameGenerations now is_written [] s = (refl, refl)
  write_step-SameGenerations now is_written (item ∷ queue) s =
      elim (Bool-cases (is_deliverable s.state item)) [
        | inr e ↦ rw (e, write_step) (refl, refl)
        | inl e ↦ elim (Bool-cases is_written) [
          | inl f ↦ rw (e, f, write_step) (refl, refl)
          | inr f ↦ rw (e, f, write_step) (refl, refl)
        ]
      ]

  reply_step-SameGenerations :
      (reader : Reader) (s : Server) → SameGenerations s.state (reply_step reader s).state
  unfolding reply_step
  reply_step-SameGenerations awaiting s = (refl, refl)
  reply_step-SameGenerations (resolving c g a bs) s = (refl, refl)
  reply_step-SameGenerations (replying item) s = ground arith

  receive_step-Advances :
      (now : ℕ) (is_sent : Bool) (packet : Packet) (reader : Reader) (s : Server)
      → HasRoom s.state
      → Advances s.state (receive_step C args now is_sent packet reader s).state
  unfolding receive_step
  receive_step-Advances now is_sent packet awaiting s room =
      dispatch-Advances now is_sent packet s.state room
  receive_step-Advances now is_sent packet (resolving c g a bs) s room =
      same-Advances s.state _ (refl, refl)
  receive_step-Advances now is_sent packet (replying item) s room =
      same-Advances s.state _ (refl, refl)

  resolved_step-Advances :
      (now : ℕ) (dst : Option SocketAddr) (bound is_sent : Bool) (reader : Reader) (s : Server)
      → Advances s.state (resolved_step C args now dst bound is_sent reader s).state
  unfolding resolved_step
  resolved_step-Advances now dst bound is_sent (resolving c g a bs) s =
      same-Advances s.state _ (open_session-SameGenerations now dst bound is_sent c g a s.state)
  resolved_step-Advances now dst bound is_sent awaiting s = same-Advances s.state _ (refl, refl)
  resolved_step-Advances now dst bound is_sent (replying item) s =
      same-Advances s.state _ (refl, refl)

  client_step-Advances :
      (event : Event) (s : Server)
      → HasRoom s.state
      → Advances s.state (client_step C args event s).state
  unfolding client_step clean_up_client
  client_step-Advances (receive now is_sent packet) s room =
      receive_step-Advances now is_sent packet s.reader s room
  client_step-Advances (resolved now dst bound is_sent) s room =
      resolved_step-Advances now dst bound is_sent s.reader s
  client_step-Advances reply s room =
      same-Advances s.state _ (reply_step-SameGenerations s.reader s)
  client_step-Advances (write now is_written) s room =
      same-Advances s.state _ (write_step-SameGenerations now is_written s.queue s)
  client_step-Advances disconnect s room = same-Advances s.state _ (refl, refl)
  client_step-Advances (relay_event now g event) s room = same-Advances s.state _ (refl, refl)
  client_step-Advances elsewhere s room = same-Advances s.state _ (refl, refl)

  relay_event-Advances :
      (now g : ℕ) (event : RelayEvent) (s : Server)
      → Advances s.state (step C args (relay_event now g event) s).state
  unfolding step
  relay_event-Advances now g event s = elim (Option-cases (lookup g s.relays)) [
    | inl e ↦ rw (e, step) (same-Advances s.state _ (refl, refl))
    | inr (r, e) ↦
        rw (e, step)
          (same-Advances s.state _ (
            Stepped-SameGenerations g r s _
              (relay_step-Stepped C args now g event r r.phase s refl)))
  ]

  elsewhere-Advances :
      (s : Server) → HasRoom s.state → Advances s.state (step C args elsewhere s).state
  unfolding step count_elsewhere
  elsewhere-Advances s room = record {
    counted = omega arith;
    by_one = omega arith;
    is_new = λ c g found. inl found;
  }

  either-Advances :
      (b : Bool) (st : ClientSessions) (s t : Server)
      → Advances st s.state
      → Advances st t.state
      → Advances st (if b then s else t).state
  either-Advances true st s t a a' = a
  either-Advances false st s t a a' = a'

  if_open-Advances :
      (event : Event) (s : Server)
      → HasRoom s.state
      → Advances s.state (if s.is_open then client_step C args event s else s).state
  if_open-Advances event s room =
      either-Advances s.is_open s.state (client_step C args event s) s
        (client_step-Advances event s room) (same-Advances s.state s.state (refl, refl))

  -- Every step.
  pub step-Advances :
      (event : Event) (s : Server) → HasRoom s.state → Advances s.state (step C args event s).state
  unfolding step
  step-Advances (relay_event now g event) s room = relay_event-Advances now g event s
  step-Advances elsewhere s room = elsewhere-Advances s room
  step-Advances (receive now is_sent packet) s room = if_open-Advances _ s room
  step-Advances (resolved now dst bound is_sent) s room = if_open-Advances _ s room
  step-Advances reply s room = if_open-Advances _ s room
  step-Advances (write now is_written) s room = if_open-Advances _ s room
  step-Advances disconnect s room = if_open-Advances _ s room
