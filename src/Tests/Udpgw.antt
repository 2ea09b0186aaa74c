-- ===== src/Tests/Udpgw.antt =====
-- Inputs for the theorems about udpgw.rs: IPv4 addresses in two bytes.
use tun2proxy.Udpgw.Codec.{retrieve_from_stream-write_to_buf, send_udpgw_packet-retrieve}
use tun2proxy.Udpgw.Frames.{IsSound}
use tun2proxy.Udpgw.Reader.{recv_udpgw_packet_csafe-append, resumed}
use tun2proxy.Udpgw.Chunks.{recv_udpgw_packet_csafe-chunks, answer, flatten, reads_of}
use tun2proxy.Udpgw.Queue.{started, stored, Uses-new_client}
use tun2proxy.Udpgw.Pool.{UdpGwClientStream, UdpGwClient, Turn, new_client, store_server_connection}
use tun2proxy.Udpgw.{
  AddressCodec, Packet, chunk, finished, keep_alive, packet_from, retrieve_from_stream,
  write_to_buf, build_packet_from_address, send_udpgw_packet, data_packet, parse_udp_response,
  recv_udpgw_packet_csafe, retrieve_front, has_flag, retrieve_header, header_from,
  retrieve_optional, build_domain_packet, take_frame, held_frame,
}
use tun2proxy.Socks.{Address, Retrieved, socket_address, domain_address, unexpected_eof, retrieved}
use tun2proxy.Proxy.{Bytes}
use tun2proxy.Ip.{v4, v6, IpAddr, is_ipv4}
use tun2proxy.Prelude.{
  refl, true, false, some, [], ◌∷◌, ok, arith, ◌≡◌, ◌≤◌, ◌++◌, ℕ, length, List, Bool,
}

abbrev write_ip : IpAddr → ℕ → Bytes
write_ip (v4 n) port = n ∷ port ∷ []
write_ip (v6 n) port = []

abbrev write_v4 : Address → Bytes
write_v4 (socket_address a) = write_ip a.ip a.port
write_v4 (domain_address d port) = []

abbrev retrieve_v4 : Bytes → Retrieved Address
retrieve_v4 (n ∷ p ∷ bs) = retrieved (socket_address (record { ip = v4 n; port = p })) 2
retrieve_v4 _ = unexpected_eof

abbrev is_v4 : Address → Bool
is_v4 (socket_address a) = is_ipv4 a.ip
is_v4 (domain_address d port) = false

abbrev IsV4 : Address → Type 0
IsV4 a = is_v4 a ≡ true

pub retrieve_v4-write_ip :
    (ip : IpAddr) (port : ℕ) (rest : Bytes)
    → is_ipv4 ip ≡ true
    → retrieve_v4 (write_ip ip port ++ rest)
      ≡ retrieved (socket_address (record { ip = ip; port = port })) (length (write_ip ip port))
retrieve_v4-write_ip (v4 n) port rest w = refl
retrieve_v4-write_ip (v6 n) port rest w = cc

pub retrieve_v4-write_v4 :
    (a : Address) (rest : Bytes)
    → IsV4 a
    → retrieve_v4 (write_v4 a ++ rest) ≡ retrieved a (length (write_v4 a))
retrieve_v4-write_v4 (socket_address a) rest w = retrieve_v4-write_ip a.ip a.port rest w
retrieve_v4-write_v4 (domain_address d port) rest w = cc

pub retrieve_v4-length :
    (bs : Bytes) (a : Address) (n : ℕ) → retrieve_v4 bs ≡ retrieved a n → n ≤ length bs
retrieve_v4-length (b ∷ c ∷ bs) a n h = ground (arith, h)
retrieve_v4-length (b ∷ []) a n h = cc
retrieve_v4-length [] a n h = cc

abbrev pub addresses : AddressCodec
addresses = record {
  write_address = write_v4;
  retrieve_address = retrieve_v4;
  address_len = λ a. length (write_v4 a);
  is_ipv6 = λ a. false;
  IsWritable = IsV4;
  length-write_address = λ a. refl;
  retrieve-write = retrieve_v4-write_v4;
  retrieve-length = retrieve_v4-length;
}

abbrev remote : Address
remote = socket_address (record { ip = v4 7; port = 53 })

abbrev datagram : Packet
datagram = data_packet 8 remote (1 ∷ 2 ∷ 3 ∷ [])

datagram-IsSound : IsSound addresses datagram
unfolding has_flag
datagram-IsSound = record {
  conn_id_small = omega arith;
  fits = omega arith;
  flagged = (refl, refl);
}

abbrev udpgw_program : Unit {0}
unfolding write_to_buf packet_from retrieve_from_stream retrieve_front retrieve_header header_from
    retrieve_optional has_flag build_packet_from_address build_domain_packet send_udpgw_packet
    parse_udp_response take_frame held_frame recv_udpgw_packet_csafe
udpgw_program = tt

retrieve_from_stream-write_to_buf_example :
    retrieve_from_stream addresses (write_to_buf addresses datagram ++ (9 ∷ []))
    ≡ ok (datagram, 9 ∷ [])
retrieve_from_stream-write_to_buf_example =
    retrieve_from_stream-write_to_buf addresses datagram (9 ∷ []) datagram-IsSound

built : build_packet_from_address addresses 8 remote (1 ∷ 2 ∷ 3 ∷ []) ≡ ok datagram
unfolding udpgw_program
built = refl

abbrev sent : Bytes
sent = 0 ∷ 8 ∷ 2 ∷ 0 ∷ 8 ∷ 7 ∷ 53 ∷ 1 ∷ 2 ∷ 3 ∷ []

is_sent : send_udpgw_packet addresses true (1 ∷ 2 ∷ 3 ∷ []) remote 8 ≡ ok sent
unfolding udpgw_program
is_sent = refl

send_udpgw_packet-retrieve_example :
    retrieve_from_stream addresses (sent ++ (9 ∷ []))
    ≡ ok (data_packet 8 remote (1 ∷ 2 ∷ 3 ∷ []), 9 ∷ [])
send_udpgw_packet-retrieve_example =
    send_udpgw_packet-retrieve addresses true (1 ∷ 2 ∷ 3 ∷ []) remote 8 sent (9 ∷ []) (omega arith)
      refl is_sent

-- The packet in two reads, the second with a byte of the next one.
abbrev pieces : List Bytes
pieces = (0 ∷ 8 ∷ 2 ∷ 0 ∷ []) ∷ (8 ∷ 7 ∷ 53 ∷ 1 ∷ 2 ∷ 3 ∷ 9 ∷ []) ∷ []

same_bytes : [] ++ flatten pieces ≡ write_to_buf addresses datagram ++ (9 ∷ [])
unfolding udpgw_program
same_bytes = refl

recv_udpgw_packet_csafe-chunks_example :
    (held : Bytes) × (left : List Bytes) × (recv_udpgw_packet_csafe addresses 1500 []
        (reads_of pieces)
      ≡ finished held (answer addresses 1500 datagram datagram-IsSound) (reads_of left))
    × (held ++ flatten left ≡ 9 ∷ [])
recv_udpgw_packet_csafe-chunks_example =
    recv_udpgw_packet_csafe-chunks addresses 1500 datagram datagram-IsSound [] pieces (9 ∷ []) tt
      same_bytes

recv_udpgw_packet_csafe-append_example :
    recv_udpgw_packet_csafe addresses 1500 [] (chunk (0 ∷ 8 ∷ []) ∷ chunk (2 ∷ []) ∷ [])
    ≡ resumed addresses 1500
        (recv_udpgw_packet_csafe addresses 1500 [] (chunk (0 ∷ 8 ∷ []) ∷ []))
        (chunk (2 ∷ []) ∷ [])
recv_udpgw_packet_csafe-append_example =
    recv_udpgw_packet_csafe-append addresses 1500 [] (chunk (0 ∷ 8 ∷ []) ∷ []) (chunk (2 ∷ []) ∷ [])

abbrev Stream : Type 0
Stream = UdpGwClientStream ℕ ℕ

abbrev stream : Stream
stream = record {
  local_addr = record { ip = v4 1; port = 1 };
  writer = some 1;
  reader = some 2;
  closed = false;
  last_activity = 0;
  serial_number = 1;
}

-- Every connection answers a minute after the last use.
abbrev answering : Stream → Turn
answering s = record {
  looked_at = 60;
  has_address = true;
  is_written = true;
  received = some (5, keep_alive) ∷ [];
  answered_at = 61;
}

abbrev client : UdpGwClient ℕ ℕ
client = record {
  udp_mtu = 1500;
  max_connections = 5;
  udp_timeout = 10;
  keepalive_time = 30;
  udpgw_server = record { ip = v4 3; port = 7300 };
  server_connections = stream ∷ record stream { closed = true } ∷ [];
}

Uses-new_client_example :
    length
      (store_server_connection
        (new_client {R = ℕ} {W = ℕ} 1500 1 30 10 (record { ip = v4 3; port = 7300 }))
        stream).server_connections
    ≤ 1
Uses-new_client_example =
    Uses-new_client 1500 1 30 10 (record { ip = v4 3; port = 7300 })
      (store_server_connection (new_client 1500 1 30 10 (record { ip = v4 3; port = 7300 })) stream)
      (stored stream started)
