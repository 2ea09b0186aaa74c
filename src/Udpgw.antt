-- ===== src/Udpgw.antt =====
-- udpgw.rs: the packets of the UDP gateway, their text on the wire, and the reader of frames that
-- may be cancelled. The wire format of addresses is code of socks5_impl, and a parameter.
pub mod Frames
pub mod Codec
pub mod Reader
pub mod Chunks
pub mod Pool
pub mod Heartbeat
pub mod Queue
use Prim.Native.Nat.{bit_and, ℕ}
use tun2proxy.Socks.{
  socket_address, domain_address, unexpected_eof, malformed, retrieved, Address, Retrieved,
}
use tun2proxy.Proxy.{Bytes, SocketAddr}
use tun2proxy.Prelude.{
  zero, suc, true, false, none, some, [], ◌∷◌, ok, err, arith, ◌+◌, ◌-◌, ◌*◌, ◌/◌, ◌%◌, ◌≡◌, ◌≤◌,
  ◌<◌, ◌++◌, ◌&&◌, ◌>>=◌, ◌>>◌, Option, ℕ, Result, Bool, eqb, List, guard, ltb, get_or, take,
  length, drop, if◌then◌else◌, not, leb,
}

abbrev pub length_field_size : ℕ
length_field_size = 2

abbrev pub u16_max : ℕ
u16_max = 65535

-- UdpFlag and its constants.
abbrev pub keepalive_flag : ℕ
keepalive_flag = 1

abbrev pub data_flag : ℕ
data_flag = 2

abbrev pub close_flag : ℕ
close_flag = 4

abbrev pub err_flag : ℕ
err_flag = 32

-- `flags & flag == flag`
unfoldable pub has_flag : ℕ → ℕ → Bool
has_flag flags flag = eqb (bit_and flags flag) flag

pub record UdpgwHeader : Type 0 where
  pub flags : ℕ
  pub conn_id : ℕ

pub record Packet : Type 0 where
  pub header : UdpgwHeader
  pub address : Option Address
  pub payload : Bytes

-- What the program takes from socks5_impl about an address. An address that `write_to_buf` can write
-- is read back from the front of what was written.
pub record AddressCodec : Type 1 where
  pub write_address : Address → Bytes
  pub retrieve_address : Bytes → Retrieved Address
  pub address_len : Address → ℕ
  pub is_ipv6 : Address → Bool
  pub IsWritable : Address → Type 0
  pub length-write_address : (a : Address) → length (write_address a) ≡ address_len a
  pub retrieve-write :
      (a : Address) (rest : Bytes)
      → IsWritable a
      → retrieve_address (write_address a ++ rest) ≡ retrieved a (address_len a)
  pub retrieve-length :
      (bs : Bytes) (a : Address) (n : ℕ) → retrieve_address bs ≡ retrieved a n → n ≤ length bs

pub data UdpgwError : Type 0 where
  frame_too_short incomplete_frame length_too_small invalid_data : UdpgwError
  end_of_stream malformed_address domain_too_long frame_too_long : UdpgwError
  too_much_data timed_out read_failed ipv6_not_supported : UdpgwError

pub data UdpGwResponse : Type 0 where
  keep_alive error tcp_close : UdpGwResponse
  data_of : Packet → UdpGwResponse

abbrev pub static_len : ℕ
static_len = 3

abbrev pub be16 : Bytes → ℕ
be16 bs = get_or bs 0 0 * 256 + get_or bs 1 0

abbrev pub header_bytes : UdpgwHeader → Bytes
header_bytes h = h.flags ∷ (h.conn_id / 256) ∷ (h.conn_id % 256) ∷ []

unfoldable pub header_from : Bytes → Result UdpgwError UdpgwHeader
header_from value =
    if ltb (length value) static_len
    then err invalid_data
    else ok (record { flags = get_or value 0 0; conn_id = be16 (drop 1 value) })

-- `read_exact` of three bytes, then the conversion.
unfoldable pub retrieve_header : Bytes → Result UdpgwError UdpgwHeader
retrieve_header stream =
    if ltb (length stream) static_len
    then err end_of_stream
    else header_from (take static_len stream)

abbrev pub build_keepalive_packet : ℕ → Packet
build_keepalive_packet conn_id = record {
  header = record { flags = keepalive_flag; conn_id = conn_id };
  address = none;
  payload = [];
}

abbrev pub build_close_packet : ℕ → Packet
build_close_packet conn_id = record {
  header = record { flags = close_flag; conn_id = conn_id };
  address = none;
  payload = [];
}

abbrev pub build_error_packet : ℕ → Packet
build_error_packet conn_id = record {
  header = record { flags = err_flag; conn_id = conn_id };
  address = none;
  payload = [];
}

abbrev pub data_packet : ℕ → Address → Bytes → Packet
data_packet conn_id a bytes = record {
  header = record { flags = data_flag; conn_id = conn_id };
  address = some a;
  payload = bytes;
}

abbrev pub build_ip_packet : ℕ → SocketAddr → Bytes → Packet
build_ip_packet conn_id remote_addr bytes = data_packet conn_id (socket_address remote_addr) bytes

unfoldable pub parse_udp_response : ℕ → Packet → Result UdpgwError UdpGwResponse
parse_udp_response udp_mtu packet =
    let flags = packet.header.flags in
    if has_flag flags err_flag
    then ok error
    else if has_flag flags keepalive_flag
    then ok keep_alive
    else if has_flag flags close_flag
    then ok tcp_close
    else if ltb udp_mtu (length packet.payload)
    then err too_much_data
    else ok (data_of packet)

-- What one `read` gives. An empty chunk is the end of the stream.
pub data Read : Type 0 where
  chunk : Bytes → Read
  out_of_time broken : Read

-- A reader that still waits, or that has returned, with the bytes it holds and the reads to come.
pub data Progress : Type 0 where
  pending : Bytes → Progress
  finished : Bytes → Result UdpgwError (ℕ × UdpGwResponse) → List Read → Progress

module _ (C : AddressCodec) where
  open C use {write_address, retrieve_address, address_len, is_ipv6}

  abbrev pub optional_len : Option Address → ℕ
  optional_len none = 0
  optional_len (some a) = address_len a

  abbrev pub write_optional : Option Address → Bytes
  write_optional none = []
  write_optional (some a) = write_address a

  -- `Packet::len`
  abbrev pub packet_len : Packet → ℕ
  packet_len p = length_field_size + static_len + optional_len p.address + length p.payload

  unfoldable pub write_to_buf : Packet → Bytes
  write_to_buf p =
      let len = (packet_len p - length_field_size) % 65536 in
      (len / 256) ∷ (len % 256) ∷ (header_bytes p.header ++ (write_optional p.address ++ p.payload))

  -- The address of a packet with the flag for it, and the number of its bytes.
  unfoldable pub retrieve_optional : ℕ → Bytes → Result UdpgwError (Option Address × ℕ)
  retrieve_optional flags stream =
      if has_flag flags data_flag
      then elim (retrieve_address stream) [
        | retrieved a n ↦ ok (some a, n)
        | unexpected_eof ↦ err end_of_stream
        | malformed ↦ err malformed_address
      ]
      else ok (none, 0)

  -- The header and the address at the front of a stream, and the number of their bytes.
  unfoldable pub retrieve_front : Bytes → Result UdpgwError (UdpgwHeader × Option Address × ℕ)
  retrieve_front stream = do
    header ← retrieve_header stream
    (address, n) ← retrieve_optional header.flags (drop static_len stream)
    ok (header, address, static_len + n)

  -- `Packet::try_from`
  unfoldable pub packet_from : Bytes → Result UdpgwError Packet
  packet_from value =
      let len = be16 value in
      let body = take len (drop length_field_size value) in
      do
        guard (not (ltb (length value) length_field_size)) frame_too_short
        guard (not (ltb (length value) (len + length_field_size))) incomplete_frame
        (header, address, n) ← retrieve_front body
        guard (not (ltb len (static_len + optional_len address))) length_too_small
        ok (record { header = header; address = address; payload = drop n body })

  -- `Packet::retrieve_from_stream`, with what stays in the stream.
  unfoldable pub retrieve_from_stream : Bytes → Result UdpgwError (Packet × Bytes)
  retrieve_from_stream stream =
      let len = be16 stream in
      do
        guard (not (ltb (length stream) length_field_size)) end_of_stream
        (header, address, n) ← retrieve_front (drop length_field_size stream)
        guard (not (ltb len (static_len + optional_len address))) invalid_data
        guard
            (leb (len - (static_len + optional_len address))
              (length (drop (length_field_size + n) stream)))
            end_of_stream
        ok (
          record {
            header = header;
            address = address;
            payload =
                take (len - (static_len + optional_len address))
                  (drop (length_field_size + n) stream);
          },
          drop (len - (static_len + optional_len address)) (drop (length_field_size + n) stream),
        )

  -- The bytes of an asynchronous stream are the same, with pauses between them.
  abbrev pub retrieve_from_async_stream : Bytes → Result UdpgwError (Packet × Bytes)
  retrieve_from_async_stream stream = retrieve_from_stream stream

  -- A pause that is too long is an error, and is left out.
  abbrev pub recv_udpgw_packet : ℕ → Bytes → Result UdpgwError ((ℕ × UdpGwResponse) × Bytes)
  recv_udpgw_packet udp_mtu stream = do
    (packet, rest) ← retrieve_from_async_stream stream
    response ← parse_udp_response udp_mtu packet
    ok ((packet_len packet, response), rest)

  abbrev is_too_long : Packet → Bool
  is_too_long p = ltb u16_max (packet_len p - length_field_size)

  unfoldable pub build_domain_packet : ℕ → ℕ → Bytes → Bytes → Result UdpgwError Packet
  build_domain_packet conn_id port domain bytes =
      let packet = data_packet conn_id (domain_address domain port) bytes in
      do
        guard (not (ltb 255 (length domain))) domain_too_long
        guard (not (is_too_long packet)) frame_too_long
        ok packet

  abbrev build_unchecked : ℕ → Address → Bytes → Result UdpgwError Packet
  build_unchecked conn_id (socket_address addr) bytes = ok (build_ip_packet conn_id addr bytes)
  build_unchecked conn_id (domain_address domain port) bytes =
      build_domain_packet conn_id port domain bytes

  unfoldable pub build_packet_from_address : ℕ → Address → Bytes → Result UdpgwError Packet
  build_packet_from_address conn_id remote_addr bytes = do
    packet ← build_unchecked conn_id remote_addr bytes
    guard (not (is_too_long packet)) frame_too_long
    ok packet

  -- The bytes that `send_udpgw_packet` writes.
  unfoldable pub send_udpgw_packet : Bool → Bytes → Address → ℕ → Result UdpgwError Bytes
  send_udpgw_packet ipv6_enabled bytes remote_addr conn_id = do
    guard (not (not ipv6_enabled && is_ipv6 remote_addr)) ipv6_not_supported
    packet ← build_packet_from_address conn_id remote_addr bytes
    ok (write_to_buf packet)

  abbrev pub send_udpgw_close_packet : ℕ → Bytes
  send_udpgw_close_packet conn_id = write_to_buf (build_close_packet conn_id)

  -- The packet of the first `total` bytes: what is held then, and the result.
  unfoldable pub take_frame : ℕ → Bytes → Bytes × Result UdpgwError (ℕ × UdpGwResponse)
  take_frame udp_mtu acc =
      let len = be16 acc in
      let frame = take (len + length_field_size) acc in
      elim (retrieve_front (drop length_field_size frame)) [
        | err e ↦ (acc, err e)
        | ok (header, address, n) ↦
            let read_len = static_len + optional_len address in
            let payload = drop (length_field_size + n) frame in
            if ltb len read_len then (acc, err invalid_data) else (
              drop (len + length_field_size) acc,
              do
                response ←
                    parse_udp_response udp_mtu
                      (record { header = header; address = address; payload = payload })
                ok (length_field_size + read_len + length payload, response),
            )
      ]

  -- The frame at the front of what is held, if it is there, or cannot come.
  unfoldable pub held_frame : ℕ → Bytes → Option (Bytes × Result UdpgwError (ℕ × UdpGwResponse))
  held_frame udp_mtu acc =
      let len = be16 acc in
      if leb length_field_size (length acc)
      then (if leb 3 len && leb (len + length_field_size) (length acc)
          then some (take_frame udp_mtu acc)
          else if ltb len 3
          then some (acc, err invalid_data)
          else none)
      else none

  unfoldable pub recv_udpgw_packet_csafe : ℕ → Bytes → List Read → Progress
  recv_udpgw_packet_csafe udp_mtu acc [] = elim (held_frame udp_mtu acc) [
    | some (acc', r) ↦ finished acc' r []
    | none ↦ pending acc
  ]
  recv_udpgw_packet_csafe udp_mtu acc (read ∷ reads) = elim (held_frame udp_mtu acc) [
    | some (acc', r) ↦ finished acc' r (read ∷ reads)
    | none ↦ elim read [
      | out_of_time ↦ finished acc (err timed_out) reads
      | broken ↦ finished acc (err read_failed) reads
      | chunk [] ↦ finished acc (err end_of_stream) reads
      | chunk (b ∷ bs) ↦ recv_udpgw_packet_csafe udp_mtu (acc ++ (b ∷ bs)) reads
    ]
  ]
