-- ===== src/Icmp/Replies.antt =====
-- icmp.rs: a flow's worker, and what it puts into the tunnel.
use tun2proxy.Icmp.Flows.{EchoPacket}
use tun2proxy.Icmp.{IcmpError, read_packet, Write, write_packet, be16_bytes, no_match, out_of_time}
use tun2proxy.Proxy.{Bytes}
use tun2proxy.Ip.{IpAddr, v6, octets}
use tun2proxy.Prelude.{
  none, some, [], ◌∷◌, ok, err, ◌%◌, ◌≡◌, ◌++◌, ◌>>=◌, ◌>>◌, ◌==◌, ◌&&◌, ℕ, Bool, List, Option,
  Result, length, take, drop, get_or, eqb, leb, if◌then◌else◌, not, guard, bytes_eq,
}

-- internet_checksum: a 16-bit number; a text with its checksum in place of two zeros verifies.
pub record InternetChecksum : Type 0 where
  pub checksum : Bytes → ℕ
  pub checksum_verifies :
      (before after : Bytes)
      → length before % 2 ≡ 0
      → checksum (before ++ (be16_bytes (checksum (before ++ (0 ∷ 0 ∷ after))) ++ after)) ≡ 0

-- The bytes that an IPv6 checksum also covers.
unfoldable pub pseudo_header : ℕ → IpAddr → IpAddr → Bytes
pseudo_header len (v6 source) (v6 destination) =
    octets 16 source ++ (octets 16 destination ++ (octets 4 len ++ (0 ∷ 0 ∷ 0 ∷ 58 ∷ [])))
pseudo_header len _ _ = []

-- One turn of a worker: the request with its deadline, the time, what the writes give, and whether
-- the exchange ends by the deadline.
pub record Turn : Type 0 where
  pub packet : EchoPacket
  pub deadline : ℕ
  pub now : ℕ
  pub writes : List Write
  pub in_time : Bool

module _ (I : InternetChecksum) where
  unfoldable pub packet_checksum : Bytes → IpAddr → IpAddr → ℕ
  packet_checksum packet source destination =
      I.checksum (pseudo_header (length packet) source destination ++ packet)

  abbrev pub reply_type : Bool → ℕ
  reply_type ipv6 = if ipv6 then 129 else 0

  -- The reply is of the request.
  unfoldable pub is_reply_to : Bool → Bytes → Bytes → Bool
  is_reply_to ipv6 request response =
      eqb (length response) (length request)
      && (eqb (get_or response 0 0) (reply_type ipv6)
          && (eqb (get_or response 1 0) 0 && (drop 4 response == drop 4 request)))

  -- The reply with a checksum of its own.
  unfoldable pub with_checksum : EchoPacket → Bytes → Bytes
  with_checksum packet response =
      let zeroed = take 2 response ++ (0 ∷ 0 ∷ drop 4 response) in
      let sum = packet_checksum zeroed packet.dst_addr packet.src_addr in
      take 2 response ++ (be16_bytes sum ++ drop 4 response)

  abbrev pub written : Option (Result IcmpError (Unit {0})) → Result IcmpError (Unit {0})
  written none = err out_of_time
  written (some r) = r

  -- One exchange over the stream of the proxy: what is put into the tunnel, and what the stream keeps.
  unfoldable pub exchange :
      Bool → List Write → EchoPacket → Bytes → Result IcmpError (Bytes × Bytes)
  exchange ipv6 writes packet stream = do
    written (write_packet writes packet.payload).1
    (response, rest) ← read_packet stream
    guard (is_reply_to ipv6 packet.payload response) no_match
    ok (with_checksum packet response, rest)

  -- The requests of a flow, until the queue is idle or an exchange fails.
  unfoldable pub run_flow : Bool → Bytes → List Turn → List (EchoPacket × Bytes)
  run_flow ipv6 stream [] = []
  run_flow ipv6 stream (turn ∷ turns) =
      let skipped = run_flow ipv6 stream turns in
      if leb turn.deadline turn.now
      then skipped
      else if not turn.in_time
      then []
      else elim (exchange ipv6 turn.writes turn.packet stream) [
        | err e ↦ []
        | ok (answer, rest) ↦ (turn.packet, answer) ∷ run_flow ipv6 rest turns
      ]
