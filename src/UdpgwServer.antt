-- ===== src/UdpgwServer.antt =====
-- bin/udpgw_server.rs: the sessions of one client of the UDP gateway, and what the reader of its
-- packets does to them. The sockets are the system's: what they give is an input. The cells that a
-- session shares with its relay task (`sent`, `last_act`, `stop`) are named by its generation.
pub mod Tasks
pub mod Schedule
pub mod Client
pub mod Effects
pub mod Sessions
pub mod Generations
pub mod Delivery
pub mod Closing
pub mod Current
pub mod Reading
pub mod Requests
pub mod Adding
pub mod Relays
pub mod Supervised
pub mod Superseded
pub mod Replies
pub mod Tagged
use tun2proxy.UdpBypass.{addr_eq, addr_beq_iff}
use tun2proxy.Maps.Assoc.{lookup, without}
use tun2proxy.Udpgw.{Packet, build_error_packet, u16_max}
use tun2proxy.Socks.{Address, socket_address, domain_address}
use tun2proxy.Proxy.{Bytes, SocketAddr}
use tun2proxy.Prelude.{
  true, false, none, some, [], ◌∷◌, arith, ◌+◌, ◌*◌, ◌%◌, ◌^◌, ◌≡◌, ◌++◌, ◌&&◌, ◌||◌, ◌==◌, ◌↔◌, Eq,
  Option, ℕ, Bool, eqb, List, ltb, leb, length, if◌then◌else◌, nat_eq, bytes_eq, bytes_beq_iff, not,
}

abbrev pub address_beq : Address → Address → Bool
address_beq (socket_address a) (socket_address b) = a == b
address_beq (socket_address a) (domain_address d p) = false
address_beq (domain_address d p) (socket_address b) = false
address_beq (domain_address d p) (domain_address e q) = (d == e) && eqb p q

pub address_beq_iff : (a b : Address) → (address_beq a b ≡ true) ↔ (a ≡ b)
address_beq_iff (socket_address a) (socket_address b) =
    (λ h. ground (arith, addr_beq_iff a b), λ h. ground (arith, addr_beq_iff a b))
address_beq_iff (socket_address a) (domain_address d p) = (λ h. cc, λ h. cc)
address_beq_iff (domain_address d p) (socket_address b) = (λ h. cc, λ h. cc)
address_beq_iff (domain_address d p) (domain_address e q) =
    (λ h. ground (arith, bytes_beq_iff d e), λ h. ground (arith, bytes_beq_iff d e))

instance abbrev pub address_eq : Eq Address
address_eq = record { beq = address_beq; beq_iff = address_beq_iff }

-- CLIENT_DISCONNECT_TIMEOUT, in milliseconds
abbrev pub client_disconnect_timeout : ℕ
client_disconnect_timeout = 60000

abbrev pub outbound_capacity : ℕ
outbound_capacity = 1024

pub record UdpGwArgs : Type 0 where
  pub udp_mtu : ℕ
  pub udp_timeout : ℕ

pub record Session : Type 0 where
  pub dst : SocketAddr
  pub req_addr : Address
  pub generation : ℕ
  pub sent : ℕ
  pub last_act : ℕ

-- The shared maps, the counter of the process, and the cancelled tokens.
pub record ClientSessions : Type 0 where
  pub sessions : List (ℕ × Session)
  pub generations : List (ℕ × ℕ)
  pub next_generation : ℕ
  pub cancelled : List ℕ

pub record OutboundItem : Type 0 where
  pub packet : Packet
  pub generation : Option ℕ

abbrev pub new : ℕ → ClientSessions
new next = record { sessions = []; generations = []; next_generation = next; cancelled = [] }

abbrev pub put : {V : Type 0} → ℕ → V → List (ℕ × V) → List (ℕ × V)
put k v m = without k m ++ (k, v) ∷ []

abbrev pub contains : ℕ → List ℕ → Bool
contains n [] = false
contains n (m ∷ ms) = eqb m n || contains n ms

abbrev pub is_cancelled : ClientSessions → ℕ → Bool
is_cancelled st g = contains g st.cancelled

abbrev pub has_value {ℓ} : {A : Type ℓ} → Option A → Bool
has_value none = false
has_value (some a) = true

-- A session that leaves the map, with its token cancelled.
unfoldable pub remove_session : ℕ → ClientSessions → ClientSessions
remove_session conn_id st = elim (lookup conn_id st.sessions) [
  | none ↦ st
  | some old ↦ record st {
    sessions = without conn_id st.sessions;
    cancelled = old.generation ∷ st.cancelled;
  }
]

unfoldable pub replace_generation : ℕ → ClientSessions → ClientSessions × ℕ
replace_generation conn_id st =
    let generation = st.next_generation in
    (
      remove_session conn_id (record st {
        next_generation = (generation + 1) % 2 ^ 64;
        generations = put conn_id generation st.generations;
      }),
      generation,
    )

unfoldable pub close_session : ℕ → ClientSessions → ClientSessions × Bool
close_session conn_id st = (
  remove_session conn_id (record st { generations = without conn_id st.generations }),
  has_value (lookup conn_id st.sessions),
)

-- What the reader does next: read a packet, wait for the resolver, or wait for room in the queue.
pub data Reader : Type 0 where
  awaiting : Reader
  resolving : ℕ → ℕ → Address → Bytes → Reader
  replying : OutboundItem → Reader

abbrev pub error_item : ℕ → ℕ → OutboundItem
error_item conn_id generation = record {
  packet = build_error_packet conn_id;
  generation = some generation;
}

-- `process_udp` fails, and its caller answers with an error of the generation.
abbrev pub failed : ℕ → ℕ → Reader
failed conn_id generation = replying (error_item conn_id generation)

abbrev refuse : ℕ → ClientSessions → ClientSessions × Reader
refuse conn_id st =
    let (st', generation) = replace_generation conn_id st in (st', failed conn_id generation)

-- The session of the connection, if it was opened for the same address.
unfoldable pub reusable : ℕ → Address → ClientSessions → Option Session
reusable conn_id req_addr st = elim (lookup conn_id st.sessions) [
  | none ↦ none
  | some s ↦ if s.req_addr == req_addr then some s else none
]

abbrev pub used_again : ℕ → Session → Session
used_again now s = record s { sent = (s.sent + 1) % 2 ^ 64; last_act = now }

-- `process_udp` until it waits for the resolver. `is_sent` says whether the datagram of a session
-- that is used again goes out within its second.
unfoldable pub process_udp : ℕ → ℕ → Bool → Packet → ClientSessions → ClientSessions × Reader
process_udp udp_mtu now is_sent packet st =
    let conn_id = packet.header.conn_id in
    elim packet.address [
      | none ↦ refuse conn_id st
      | some req_addr ↦
          if ltb udp_mtu (length packet.payload)
          then refuse conn_id st
          else elim (reusable conn_id req_addr st) [
            | some s ↦ (
              record st { sessions = put conn_id (used_again now s) st.sessions },
              if is_sent then awaiting else failed conn_id s.generation,
            )
            | none ↦
                let (st', generation) = replace_generation conn_id st in
                (st', resolving conn_id generation req_addr packet.payload)
          ]
    ]

-- Whether the connection's session is the one of this generation.
abbrev pub is_own : ℕ → ℕ → ClientSessions → Bool
is_own conn_id generation st = elim (lookup conn_id st.sessions) [
  | none ↦ false
  | some s ↦ eqb s.generation generation
]

-- The session of this generation leaves the map, and its token stays as it is.
unfoldable pub forget_own : ℕ → ℕ → ClientSessions → ClientSessions
forget_own conn_id generation st =
    if is_own conn_id generation st
    then record st { sessions = without conn_id st.sessions }
    else st

-- A relay task waits for datagrams, offers an item to the queue, has left its loop, or has ended.
pub data Phase : Type 0 where
  listening : Phase
  offering : OutboundItem → Phase
  leaving ended : Phase

pub record Relay : Type 0 where
  pub conn_id : ℕ
  pub dst : SocketAddr
  pub phase : Phase

-- `process_udp` from the resolver's answer on: the state, the reader, and the relay that is spawned.
-- `bound` says whether a socket is made, and `is_sent` whether it sends the datagram.
unfoldable pub open_session :
    ℕ
    → Option SocketAddr
    → Bool
    → Bool
    → ℕ
    → ℕ
    → Address
    → ClientSessions
    → ClientSessions × Reader × Option Relay
open_session now none bound is_sent conn_id generation req_addr st =
    (st, failed conn_id generation, none)
open_session now (some dst) bound is_sent conn_id generation req_addr st =
    let session : Session = record {
      dst = dst;
      req_addr = req_addr;
      generation = generation;
      sent = 1;
      last_act = now;
    } in
    let st' = record st { sessions = put conn_id session st.sessions } in
    if not bound
    then (st, failed conn_id generation, none)
    else if is_sent
    then (st', awaiting, some (record { conn_id = conn_id; dst = dst; phase = listening }))
    else (forget_own conn_id generation st', failed conn_id generation, none)
