-- ===== src/Icmp/Flows.antt =====
-- icmp.rs: the flows, each with a queue that its worker takes requests from, and their limits in any
-- order of packets and workers.
use tun2proxy.Icmp.{queue_depth, max_flows, echo_timeout}
use tun2proxy.Maps.Assoc.{lookup, without}
use tun2proxy.Proxy.{Bytes}
use tun2proxy.Ip.{IpAddr, ip_eq, is_ipv4, ip_beq_iff}
use tun2proxy.Prelude.{
  true, false, none, some, [], ◌∷◌, arith, ◌+◌, ◌-◌, ◌≡◌, ◌++◌, ◌&&◌, ◌||◌, ◌==◌, ◌↔◌, Eq, Option,
  ℕ, Bool, eqb, List, ltb, leb, length, take, drop, get_or, if◌then◌else◌, nat_eq, not, bytes_eq,
}

-- ipstack's packet of an unknown transport, as the program reads it.
pub record EchoPacket : Type 0 where
  pub protocol : ℕ
  pub src_addr : IpAddr
  pub dst_addr : IpAddr
  pub payload : Bytes

pub record FlowKey : Type 0 where
  pub source : IpAddr
  pub destination : IpAddr
  pub identifier_high : ℕ
  pub identifier_low : ℕ

abbrev pub key_beq : FlowKey → FlowKey → Bool
key_beq a b =
    (a.source == b.source)
    && ((a.destination == b.destination)
        && (eqb a.identifier_high b.identifier_high && eqb a.identifier_low b.identifier_low))

pub key_beq_iff : (a b : FlowKey) → (key_beq a b ≡ true) ↔ (a ≡ b)
key_beq_iff a b =
    ground (arith, ip_beq_iff a.source b.source, ip_beq_iff a.destination b.destination)

instance abbrev pub key_eq : Eq FlowKey
key_eq = record { beq = key_beq; beq_iff = key_beq_iff }

pub record EchoRequest : Type 0 where
  pub packet : EchoPacket
  pub deadline : ℕ

-- The channel of a flow: the requests in it, and whether its worker has ended.
pub record Sender : Type 0 where
  pub target : Bytes
  pub queue : List EchoRequest
  pub closed : Bool

pub record EchoFlows : Type 0 where
  pub flows : List (FlowKey × Sender)
  pub mtu : ℕ

unfoldable pub is_echo : EchoPacket → Bool
is_echo packet =
    let front = take 2 packet.payload in
    (eqb packet.protocol 1 && (front == (8 ∷ 0 ∷ [])))
    || (eqb packet.protocol 58 && (front == (128 ∷ 0 ∷ [])))

-- `retain(|_, sender| !sender.is_closed())`
unfoldable pub retain_open : List (FlowKey × Sender) → List (FlowKey × Sender)
retain_open [] = []
retain_open ((key, sender) ∷ flows) =
    let rest = retain_open flows in if sender.closed then rest else (key, sender) ∷ rest

abbrev pub key_of : EchoPacket → FlowKey
key_of packet = record {
  source = packet.src_addr;
  destination = packet.dst_addr;
  identifier_high = get_or packet.payload 4 0;
  identifier_low = get_or packet.payload 5 0;
}

abbrev pub put : FlowKey → Sender → List (FlowKey × Sender) → List (FlowKey × Sender)
put key sender flows = without key flows ++ (key, sender) ∷ []

-- A full queue drops the request.
unfoldable pub try_send : EchoRequest → Sender → Sender
try_send request sender =
    if ltb (length sender.queue) queue_depth
    then record sender { queue = sender.queue ++ request ∷ [] }
    else sender

-- `packet_checksum` and the text of an address are parameters here.
module _ (packet_checksum : Bytes → IpAddr → IpAddr → ℕ) (ip_text : IpAddr → Bytes) where
  unfoldable pub is_malformed : EchoFlows → EchoPacket → Bool
  is_malformed e packet =
      let header_len = if is_ipv4 packet.src_addr then 20 else 40 in
      (ltb (length packet.payload) 8 || ltb (e.mtu - header_len) (length packet.payload))
      || not (eqb (packet_checksum packet.payload packet.src_addr packet.dst_addr) 0)

  abbrev target_of : EchoPacket → Option Bytes → Bytes
  target_of packet none = ip_text packet.dst_addr
  target_of packet (some domain) = domain

  unfoldable pub dispatch : ℕ → EchoPacket → Option Bytes → EchoFlows → EchoFlows
  dispatch now packet domain e =
      let flows = retain_open e.flows in
      let key = key_of packet in
      let request : EchoRequest = record { packet = packet; deadline = now + echo_timeout } in
      if is_malformed e packet then e else elim (lookup key flows) [
        | some sender ↦ record e { flows = put key (try_send request sender) flows }
        | none ↦ if leb max_flows (length flows) then record e { flows = flows } else record e {
          flows =
              put key
                (try_send request
                  (record { target = target_of packet domain; queue = []; closed = false }))
                flows;
        }
      ]

-- What a worker does to its channel: it takes a request, or ends.
abbrev pub taken : Sender → Sender
taken sender = record sender { queue = drop 1 sender.queue }

abbrev pub with_flow : FlowKey → (Sender → Sender) → EchoFlows → EchoFlows
with_flow key f e = elim (lookup key e.flows) [
  | none ↦ e
  | some sender ↦ record e { flows = put key (f sender) e.flows }
]

abbrev pub ended : Sender → Sender
ended sender = record sender { closed = true }

pub data Step (packet_checksum : Bytes → IpAddr → IpAddr → ℕ) (ip_text : IpAddr → Bytes)
    (e : EchoFlows) : EchoFlows → Type 0 where
  packet_in :
      (now : ℕ) (packet : EchoPacket) (domain : Option Bytes)
      → Step packet_checksum ip_text e (dispatch packet_checksum ip_text now packet domain e)
  worker_takes : (key : FlowKey) → Step packet_checksum ip_text e (with_flow key taken e)
  worker_ends : (key : FlowKey) → Step packet_checksum ip_text e (with_flow key ended e)

pub data Reach (packet_checksum : Bytes → IpAddr → IpAddr → ℕ) (ip_text : IpAddr → Bytes) (mtu : ℕ)
    : EchoFlows → Type 0 where
  start : Reach packet_checksum ip_text mtu (record { flows = []; mtu = mtu })
  later :
      {e e' : EchoFlows}
      → Reach packet_checksum ip_text mtu e
      → Step packet_checksum ip_text e e'
      → Reach packet_checksum ip_text mtu e'
