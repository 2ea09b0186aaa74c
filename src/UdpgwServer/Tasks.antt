-- ===== src/UdpgwServer/Tasks.antt =====
-- bin/udpgw_server.rs: the relay tasks, the writer and the reader of one client, and their steps in
-- any order. A step is what a task does under one lock.
use tun2proxy.UdpgwServer.{
  UdpGwArgs, ClientSessions, OutboundItem, Reader, Relay, Phase, awaiting, resolving, replying,
  listening, offering, leaving, ended, process_udp, open_session, replace_generation, close_session,
  error_item, forget_own, remove_session, is_own, is_cancelled, put, outbound_capacity, address_eq,
}
use tun2proxy.UdpBypass.{addr_eq}
use tun2proxy.Maps.Assoc.{lookup}
use tun2proxy.Udpgw.{
  Packet, AddressCodec, build_error_packet, build_keepalive_packet, u16_max, static_len,
  build_packet_from_address, keepalive_flag, close_flag, data_flag,
}
use tun2proxy.Socks.{socket_address}
use tun2proxy.Proxy.{Bytes, SocketAddr}
use tun2proxy.Prelude.{
  false, none, some, [], ◌∷◌, ok, err, ◌+◌, ◌-◌, ◌*◌, ◌^◌, ◌++◌, ◌&&◌, ◌==◌, Option, ℕ, Bool, eqb,
  List, ltb, leb, length, if◌then◌else◌, nat_eq, not,
}

-- What a relay meets next: a datagram and its source, a second without one, a failed `recv_from`, a
-- chance to send, or the lock of its clean-up.
pub data RelayEvent : Type 0 where
  datagram : SocketAddr → Bytes → RelayEvent
  silence broken_socket offer clean_up : RelayEvent

-- What happens next, with the time. `elsewhere` is another client's use of the counter.
pub data Event : Type 0 where
  receive : ℕ → Bool → Packet → Event
  resolved : ℕ → Option SocketAddr → Bool → Bool → Event
  reply : Event
  relay_event : ℕ → ℕ → RelayEvent → Event
  write : ℕ → Bool → Event
  elsewhere disconnect : Event

-- One client: the shared state, the tasks, the queue to the writer, and what the writer has written.
pub record Server : Type 0 where
  pub state : ClientSessions
  pub reader : Reader
  pub relays : List (ℕ × Relay)
  pub queue : List OutboundItem
  pub written : List OutboundItem
  pub last_activity : ℕ
  pub is_open : Bool

abbrev min : ℕ → ℕ → ℕ
min a b = if leb a b then a else b

-- `udp_timeout.max(1).saturating_mul(1000)`
abbrev pub idle_ms : UdpGwArgs → ℕ
idle_ms args = min ((if ltb args.udp_timeout 1 then 1 else args.udp_timeout) * 1000) (2 ^ 64 - 1)

abbrev pub idle_for : ℕ → ℕ → ℕ → ClientSessions → Option ℕ
idle_for now conn_id generation st = elim (lookup conn_id st.sessions) [
  | none ↦ none
  | some s ↦ if eqb s.generation generation then some (now - s.last_act) else none
]

abbrev pub is_expired : ℕ → Option ℕ → Bool
is_expired limit none = false
is_expired limit (some idle) = leb limit idle

-- The relay's store to `last_act`, which the session of its generation sees.
unfoldable pub store_last_act : ℕ → ℕ → ℕ → ClientSessions → ClientSessions
store_last_act now conn_id generation st = elim (lookup conn_id st.sessions) [
  | none ↦ st
  | some s ↦
      if eqb s.generation generation
      then record st { sessions = put conn_id (record s { last_act = now }) st.sessions }
      else st
]

-- A second without a datagram: an idle session is removed, and a replaced relay leaves.
unfoldable pub on_silence : UdpGwArgs → ℕ → ℕ → ℕ → ClientSessions → ClientSessions × Phase
on_silence args now conn_id generation st = elim (idle_for now conn_id generation st) [
  | none ↦ (st, leaving)
  | some idle ↦
      if leb (idle_ms args) idle then (remove_session conn_id st, leaving) else (st, listening)
]

-- A datagram of another source only lets the session expire.
unfoldable pub on_stranger : UdpGwArgs → ℕ → ℕ → ℕ → ClientSessions → ClientSessions × Phase
on_stranger args now conn_id generation st =
    if is_expired (idle_ms args) (idle_for now conn_id generation st)
    then (forget_own conn_id generation st, leaving)
    else (st, listening)

-- The end of a relay.
unfoldable pub end_relay : ℕ → ℕ → ClientSessions → ClientSessions
end_relay conn_id generation st =
    if is_own conn_id generation st then remove_session conn_id st else st

abbrev pub spawned : ℕ → Option Relay → List (ℕ × Relay) → List (ℕ × Relay)
spawned generation none relays = relays
spawned generation (some r) relays = put generation r relays

module _ (C : AddressCodec) (args : UdpGwArgs) where
  abbrev pub max_frame_payload : SocketAddr → ℕ
  max_frame_payload dst = u16_max - (static_len + C.address_len (socket_address dst))

  abbrev pub effective_mtu : SocketAddr → ℕ
  effective_mtu dst = min args.udp_mtu (max_frame_payload dst)

  -- The packet for a reply of the destination; none when it cannot be built.
  unfoldable pub reply_packet : ℕ → SocketAddr → Bytes → Option Packet
  reply_packet conn_id dst bytes =
      if ltb (effective_mtu dst) (length bytes)
      then some (build_error_packet conn_id)
      else elim (build_packet_from_address C conn_id (socket_address dst) bytes) [
        | ok packet ↦ some packet
        | err e ↦ none
      ]

  abbrev offered : ℕ → Option Packet → Phase
  offered generation none = listening
  offered generation (some packet) =
      offering (record { packet = packet; generation = some generation })

  -- A relay that waits for datagrams; a cancelled token is seen first.
  unfoldable pub listen : ℕ → ℕ → Relay → RelayEvent → ClientSessions → ClientSessions × Phase
  listen now generation r (datagram source bytes) st =
      if is_cancelled st generation
      then (st, leaving)
      else if not (source == r.dst)
      then on_stranger args now r.conn_id generation st
      else (
        store_last_act now r.conn_id generation st,
        offered generation (reply_packet r.conn_id r.dst bytes),
      )
  listen now generation r silence st =
      if is_cancelled st generation
      then (st, leaving)
      else on_silence args now r.conn_id generation st
  listen now generation r broken_socket st = (st, leaving)
  listen now generation r _ st = (st, listening)

  abbrev is_reply : Relay → RelayEvent → Bool
  is_reply r (datagram source bytes) = source == r.dst
  is_reply r _ = false

  abbrev in_phase : ℕ → Relay → Phase → Server → Server
  in_phase generation r phase s = record s {
    relays = put generation (record r { phase = phase }) s.relays;
  }

  abbrev listened : ℕ → ℕ → Relay → RelayEvent → Server → Server
  listened now generation r event s =
      let (st, phase) = listen now generation r event s.state in
      in_phase generation r phase (record s {
        state = st;
        last_activity =
            if not (is_cancelled s.state generation) && is_reply r event
            then now
            else s.last_activity;
      })

  -- The queue has room, or its receiver is gone.
  abbrev offer_item : ℕ → Relay → OutboundItem → Server → Server
  offer_item generation r item s =
      if is_cancelled s.state generation
      then in_phase generation r leaving s
      else if not s.is_open
      then in_phase generation r leaving s
      else if ltb (length s.queue) outbound_capacity
      then in_phase generation r listening (record s { queue = s.queue ++ item ∷ [] })
      else s

  unfoldable pub relay_step : ℕ → ℕ → RelayEvent → Relay → Phase → Server → Server
  relay_step now generation event r listening s = listened now generation r event s
  relay_step now generation offer r (offering item) s = offer_item generation r item s
  relay_step now generation clean_up r leaving s =
      in_phase generation r ended (record s { state = end_relay r.conn_id generation s.state })
  relay_step now generation _ r _ s = s

  -- `process_client_udp_req` with a packet that was read.
  unfoldable pub dispatch : ℕ → Bool → Packet → ClientSessions → ClientSessions × Reader
  dispatch now is_sent packet st =
      let flags = packet.header.flags in
      let conn_id = packet.header.conn_id in
      if eqb flags keepalive_flag
      then (st, replying (record { packet = build_keepalive_packet conn_id; generation = none }))
      else if eqb flags close_flag
      then ((close_session conn_id st).0, awaiting)
      else if not (eqb flags data_flag)
      then (let (st', generation) = replace_generation conn_id st in
          (st', replying (error_item conn_id generation)))
      else process_udp args.udp_mtu now is_sent packet st

  unfoldable pub receive_step : ℕ → Bool → Packet → Reader → Server → Server
  receive_step now is_sent packet awaiting s =
      let (st, reader) = dispatch now is_sent packet s.state in
      record s { state = st; reader = reader; last_activity = now }
  receive_step now is_sent packet _ s = s

  unfoldable pub resolved_step : ℕ → Option SocketAddr → Bool → Bool → Reader → Server → Server
  resolved_step now dst bound is_sent (resolving conn_id generation req_addr bytes) s =
      let (st, reader, r) =
        open_session now dst bound is_sent conn_id generation req_addr s.state in
      record s { state = st; reader = reader; relays = spawned generation r s.relays }
  resolved_step now dst bound is_sent _ s = s
