-- ===== src/Udpgw/Codec.antt =====
-- udpgw.rs: the round trips of the codec, the bounds of the builders, and the answers to packets.
use tun2proxy.Udpgw.Frames.{
  IsSound, body, length-body, write_to_buf-body, front_lem, body_long, drop-front_all, drop-front,
}
use tun2proxy.Udpgw.{
  keep_alive, tcp_close, error, data_of, too_much_data, AddressCodec, Packet, packet_from,
  retrieve_from_stream, write_to_buf, packet_len, build_packet_from_address, build_domain_packet,
  data_packet, send_udpgw_packet, u16_max, length_field_size, static_len, optional_len,
  retrieve_front, header_bytes, write_optional, has_flag, data_flag, parse_udp_response,
  build_keepalive_packet, build_close_packet, build_error_packet,
}
use tun2proxy.Socks.{Address, socket_address, domain_address}
use tun2proxy.Proxy.{Bytes}
use tun2proxy.Prelude.{
  refl, suc, true, false, ◌∷◌, ok, err, arith, ◌+◌, ◌*◌, ◌/◌, ◌%◌, ◌≡◌, ◌<◌, ◌++◌, ap, ◌∙◌, sym,
  length, ℕ, ltb, length-append, take-append, ◌-◌, append_assoc, leb, drop-append, Bool-cases, drop,
  drop-drop, inl, inr, subst, Bool, Result-cases, if◌then◌else◌,
}

module _ (C : AddressCodec) where
  abbrev split : ℕ → Bytes → Bytes
  split n bs = (n / 256) ∷ (n % 256) ∷ bs

  packet_from-split :
      (p : Packet) (rest : Bytes)
      → IsSound C p
      → packet_from C (split (length (body C p)) (body C p ++ rest)) ≡ ok p
  unfolding packet_from
  packet_from-split p rest s =
      let n = length (body C p) in
      let len : (n / 256) * 256 + n % 256 ≡ n = omega arith in
      let two : ltb (suc (suc (length (body C p ++ rest)))) 2 ≡ false = ground arith in
      let whole : ltb (suc (suc (length (body C p ++ rest)))) (n + 2) ≡ false =
        ground (arith, length-append (body C p) rest) in
      rw
        (
          len,
          two,
          whole,
          take-append (body C p) rest,
          front_lem C p p.payload s,
          body_long C p,
          drop-front_all C p,
        )
        refl

  -- What is written for a packet that a frame can hold is read back from a slice, whatever follows it.
  pub packet_from-write_to_buf :
      (p : Packet) (rest : Bytes) → IsSound C p → packet_from C (write_to_buf C p ++ rest) ≡ ok p
  packet_from-write_to_buf p rest s =
      ap (λ bs. packet_from C (bs ++ rest)) (write_to_buf-body C p s) ∙ packet_from-split p rest s

  retrieve-split :
      (p : Packet) (rest : Bytes)
      → IsSound C p
      → retrieve_from_stream C (split (length (body C p)) (body C p ++ rest)) ≡ ok (p, rest)
  unfolding retrieve_from_stream
  retrieve-split p rest s =
      let n = length (body C p) in
      let front = static_len + optional_len C p.address in
      let len : (n / 256) * 256 + n % 256 ≡ n = omega arith in
      let two : ltb (suc (suc (length (body C p ++ rest)))) 2 ≡ false = ground arith in
      let found : retrieve_front C (body C p ++ rest) ≡ ok (p.header, p.address, front) =
        ap (λ bs. retrieve_front C (header_bytes p.header ++ bs))
          (append_assoc (write_optional C p.address) p.payload rest)
        ∙ front_lem C p (p.payload ++ rest) s in
      let payload : drop (length_field_size + front) (split n (body C p ++ rest))
          ≡ p.payload ++ rest =
        sym (drop-drop front length_field_size (split n (body C p ++ rest)))
        ∙ drop-front C p rest in
      let left : n - front ≡ length p.payload = omega (arith, length-body C p) in
      let whole : leb (length p.payload) (length (p.payload ++ rest)) ≡ true =
        ground (arith, length-append p.payload rest) in
      rw
        (
          len,
          two,
          found,
          body_long C p,
          left,
          payload,
          whole,
          take-append p.payload rest,
          drop-append p.payload rest,
        )
        refl

  -- What is written for a packet that a frame can hold is read back from a stream, and what follows
  -- it stays in the stream.
  pub retrieve_from_stream-write_to_buf :
      (p : Packet) (rest : Bytes)
      → IsSound C p
      → retrieve_from_stream C (write_to_buf C p ++ rest) ≡ ok (p, rest)
  retrieve_from_stream-write_to_buf p rest s =
      ap (λ bs. retrieve_from_stream C (bs ++ rest)) (write_to_buf-body C p s)
      ∙ retrieve-split p rest s

  data_flagged : has_flag data_flag data_flag ≡ true
  unfolding has_flag
  data_flagged = refl

  pub data_packet_sound :
      (conn_id : ℕ) (a : Address) (bytes : Bytes)
      → conn_id < 65536
      → C.IsWritable a
      → ltb u16_max (packet_len C (data_packet conn_id a bytes) - length_field_size) ≡ false
      → IsSound C (data_packet conn_id a bytes)
  data_packet_sound conn_id a bytes id w short = record {
    conn_id_small = id;
    fits = ground (arith, short);
    flagged = (data_flagged, w);
  }

  -- A packet that is built for an address is the packet of its data, and a frame can hold it.
  pub build_packet_from_address_sound :
      (conn_id : ℕ) (a : Address) (bytes : Bytes) (p : Packet)
      → conn_id < 65536
      → C.IsWritable a
      → build_packet_from_address C conn_id a bytes ≡ ok p
      → (p ≡ data_packet conn_id a bytes) × IsSound C p
  unfolding build_packet_from_address build_domain_packet
  build_packet_from_address_sound conn_id (socket_address x) bytes p id w h =
      let made = data_packet conn_id (socket_address x) bytes in
      elim (Bool-cases (ltb u16_max (packet_len C made - length_field_size))) [
        | inl long ↦ ground (arith, (rw (long, build_packet_from_address) at h))
        | inr short ↦
            let e : made ≡ p = cc (rw (short, build_packet_from_address) at h) in
            (
              sym e,
              subst (IsSound C) e (data_packet_sound conn_id (socket_address x) bytes id w short),
            )
      ]
  build_packet_from_address_sound conn_id (domain_address d port) bytes p id w h =
      let made = data_packet conn_id (domain_address d port) bytes in
      elim (Bool-cases (ltb u16_max (packet_len C made - length_field_size))) [
        | inl long ↦ ground (arith, long, h)
        | inr short ↦
            let e : made ≡ p = ground (arith, h) in
            (
              sym e,
              subst (IsSound C) e
                  (data_packet_sound conn_id (domain_address d port) bytes id w short),
            )
      ]

  -- What is sent for a datagram, where it can be sent, is read back by the server from its stream as
  -- the packet of the same connection, address and data, and leaves what follows.
  pub send_udpgw_packet-retrieve :
      (ipv6_enabled : Bool) (bytes : Bytes) (a : Address) (conn_id : ℕ) (sent rest : Bytes)
      → conn_id < 65536
      → C.IsWritable a
      → send_udpgw_packet C ipv6_enabled bytes a conn_id ≡ ok sent
      → retrieve_from_stream C (sent ++ rest) ≡ ok (data_packet conn_id a bytes, rest)
  unfolding send_udpgw_packet
  send_udpgw_packet-retrieve ipv6_enabled bytes a conn_id sent rest id w h =
      elim (Result-cases (build_packet_from_address C conn_id a bytes)) [
        | inr (x, e) ↦ ground (arith, e, h)
        | inl (p, e) ↦
            let (same, sound) = build_packet_from_address_sound conn_id a bytes p id w e in
            let written : write_to_buf C p ≡ sent = ground (arith, e, h) in
            ap (λ bs. retrieve_from_stream C (bs ++ rest)) (sym written)
            ∙ retrieve_from_stream-write_to_buf p rest sound
            ∙ ap (λ q. ok (q, rest)) same
      ]

-- Each kind of packet is answered as such, and data exactly where it is within the limit.
pub parse_udp_response_lem :
    (udp_mtu conn_id : ℕ) (a : Address) (bytes : Bytes)
    → (parse_udp_response udp_mtu (build_keepalive_packet conn_id) ≡ ok keep_alive)
      × (parse_udp_response udp_mtu (build_close_packet conn_id) ≡ ok tcp_close)
      × (parse_udp_response udp_mtu (build_error_packet conn_id) ≡ ok error)
      × (parse_udp_response udp_mtu (data_packet conn_id a bytes) ≡ (
          if ltb udp_mtu (length bytes)
          then err too_much_data
          else ok (data_of (data_packet conn_id a bytes))))
unfolding parse_udp_response has_flag
parse_udp_response_lem udp_mtu conn_id a bytes = (refl, refl, refl, refl)
