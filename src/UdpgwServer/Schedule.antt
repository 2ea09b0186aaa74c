-- ===== src/UdpgwServer/Schedule.antt =====
-- bin/udpgw_server.rs: the writer to the client, the end of a client, and the tasks of one client in
-- any order.
use tun2proxy.UdpgwServer.Tasks.{
  Event, Server, receive, resolved, reply, relay_event, write, elsewhere, disconnect, receive_step,
  resolved_step, relay_step,
}
use tun2proxy.UdpgwServer.{
  UdpGwArgs, ClientSessions, OutboundItem, Reader, Session, awaiting, replying, new,
  outbound_capacity,
}
use tun2proxy.Maps.Assoc.{lookup}
use tun2proxy.Udpgw.{AddressCodec, write_to_buf}
use tun2proxy.Proxy.{Bytes}
use tun2proxy.Prelude.{
  true, false, none, some, [], ◌∷◌, ◌+◌, ◌%◌, ◌^◌, ◌++◌, ℕ, Bool, eqb, List, ltb, length,
  if◌then◌else◌, nat_eq,
}

-- Whether `write_to_client` lets an item through.
unfoldable pub is_deliverable : ClientSessions → OutboundItem → Bool
is_deliverable st item = elim item.generation [
  | none ↦ true
  | some generation ↦ elim (lookup item.packet.header.conn_id st.generations) [
    | none ↦ false
    | some current_gen ↦ eqb current_gen generation
  ]
]

-- The client's task is over: the reader and the writer are dropped, and every session is stopped.
unfoldable pub cancel_all : List (ℕ × Session) → List ℕ → List ℕ
cancel_all [] cancelled = cancelled
cancel_all ((conn_id, session) ∷ sessions) cancelled =
    cancel_all sessions (session.generation ∷ cancelled)

unfoldable pub clean_up_client : Server → Server
clean_up_client s = record s {
  state = record s.state {
    sessions = [];
    cancelled = cancel_all s.state.sessions s.state.cancelled;
  };
  is_open = false;
}

-- One turn of `write_to_client`. A write that fails ends the client.
unfoldable pub write_step : ℕ → Bool → List OutboundItem → Server → Server
write_step now is_written [] s = s
write_step now is_written (item ∷ queue) s =
    if is_deliverable s.state item
    then (if is_written
        then record s { queue = queue; written = s.written ++ item ∷ []; last_activity = now }
        else clean_up_client (record s { queue = queue }))
    else record s { queue = queue }

unfoldable pub reply_step : Reader → Server → Server
reply_step (replying item) s =
    if ltb (length s.queue) outbound_capacity
    then record s { queue = s.queue ++ item ∷ []; reader = awaiting }
    else s
reply_step _ s = s

unfoldable pub count_elsewhere : Server → Server
count_elsewhere s = record s {
  state = record s.state { next_generation = (s.state.next_generation + 1) % 2 ^ 64 };
}

module _ (C : AddressCodec) (args : UdpGwArgs) where
  -- The reader and the writer of a client.
  unfoldable pub client_step : Event → Server → Server
  client_step (receive now is_sent packet) s = receive_step C args now is_sent packet s.reader s
  client_step (resolved now dst bound is_sent) s =
      resolved_step C args now dst bound is_sent s.reader s
  client_step reply s = reply_step s.reader s
  client_step (write now is_written) s = write_step now is_written s.queue s
  client_step disconnect s = clean_up_client s
  client_step (relay_event now generation event) s = s
  client_step elsewhere s = s

  -- The relays and the counter go on when the client has gone.
  unfoldable pub step : Event → Server → Server
  step (relay_event now generation event) s = elim (lookup generation s.relays) [
    | none ↦ s
    | some r ↦ relay_step C args now generation event r r.phase s
  ]
  step elsewhere s = count_elsewhere s
  step event s = if s.is_open then client_step event s else s

  unfoldable pub run : List Event → Server → Server
  run [] s = s
  run (event ∷ events) s = run events (step event s)

  -- The bytes that the client has got.
  unfoldable pub sent_to_client : List OutboundItem → Bytes
  sent_to_client [] = []
  sent_to_client (item ∷ items) = write_to_buf C item.packet ++ sent_to_client items

-- A client that has connected, at a value of the counter.
abbrev pub connected : ℕ → ℕ → Server
connected now next = record {
  state = new next;
  reader = awaiting;
  relays = [];
  queue = [];
  written = [];
  last_activity = now;
  is_open = true;
}
