-- ===== src/UdpgwServer/Replies.antt =====
-- bin/udpgw_server.rs: the packet for a reply, the wait for a client, and what the log shows of an
-- address.
use tun2proxy.UdpgwServer.Client.{
  Wake, packet_read, two_seconds, retrieve_packet_or_disconnect, mask_from, is_separator,
}
use tun2proxy.UdpgwServer.Tasks.{reply_packet, effective_mtu, max_frame_payload}
use tun2proxy.UdpgwServer.{UdpGwArgs, client_disconnect_timeout}
use tun2proxy.Udpgw.Codec.{retrieve_from_stream-write_to_buf, data_packet_sound}
use tun2proxy.Udpgw.Frames.{IsSound}
use tun2proxy.Udpgw.{
  has_flag, length_field_size, retrieve_from_stream, write_to_buf, AddressCodec, Packet, timed_out,
  build_error_packet, build_packet_from_address, data_packet, packet_len, static_len, u16_max,
}
use tun2proxy.Socks.{socket_address}
use tun2proxy.Proxy.{Bytes, SocketAddr}
use tun2proxy.Prelude.{
  refl, false, none, some, inl, inr, [], ◌∷◌, ok, err, arith, ◌+◌, ◌-◌, ◌≡◌, ◌≤◌, ◌<◌, ◌++◌, ◌||◌,
  ◌⊎◌, ℕ, List, eqb, ltb, length, if◌then◌else◌, Bool-cases,
}

module _ (C : AddressCodec) (args : UdpGwArgs) where
  -- What the limit leaves room for.
  data_fits :
      (conn_id : ℕ) (dst : SocketAddr) (bytes : Bytes)
      → static_len + C.address_len (socket_address dst) ≤ u16_max
      → ltb (effective_mtu C args dst) (length bytes) ≡ false
      → ltb u16_max
          (packet_len C (data_packet conn_id (socket_address dst) bytes) - length_field_size)
        ≡ false
  data_fits conn_id dst bytes writable short =
      let a = max_frame_payload C args dst in
      let le : effective_mtu C args dst ≤ a = ground arith in
      let le' : length bytes ≤ effective_mtu C args dst = ground (arith, short) in
      ground (arith, le, le', writable)

  build_packet-fits :
      (conn_id : ℕ) (dst : SocketAddr) (bytes : Bytes)
      → ltb u16_max
          (packet_len C (data_packet conn_id (socket_address dst) bytes) - length_field_size)
        ≡ false
      → build_packet_from_address C conn_id (socket_address dst) bytes
        ≡ ok (data_packet conn_id (socket_address dst) bytes)
  unfolding build_packet_from_address
  build_packet-fits conn_id dst bytes fits = rw (fits, build_packet_from_address) refl

  error_packet-IsSound : (conn_id : ℕ) → conn_id < 65536 → IsSound C (build_error_packet conn_id)
  unfolding has_flag
  error_packet-IsSound conn_id id = record {
    conn_id_small = id;
    fits = ground arith;
    flagged = refl;
  }

  -- What the relay makes of a reply.
  abbrev pub answer_for : ℕ → SocketAddr → Bytes → Packet
  answer_for conn_id dst bytes =
      if ltb (effective_mtu C args dst) (length bytes)
      then build_error_packet conn_id
      else data_packet conn_id (socket_address dst) bytes

  -- For a reply of the destination, where its address can be written and leaves room in a frame,
  -- the relay always builds a packet, an error where the reply is over the limit and its data
  -- where it is not, and the client reads that packet back from its stream.
  pub reply_packet-retrieve :
      (conn_id : ℕ) (dst : SocketAddr) (bytes rest : Bytes)
      → conn_id < 65536
      → C.IsWritable (socket_address dst)
      → static_len + C.address_len (socket_address dst) ≤ u16_max
      → (p : Packet) × (reply_packet C args conn_id dst bytes ≡ some p)
        × (p ≡ answer_for conn_id dst bytes)
        × (retrieve_from_stream C (write_to_buf C p ++ rest) ≡ ok (p, rest))
  unfolding reply_packet
  reply_packet-retrieve conn_id dst bytes rest id w writable =
      elim (Bool-cases (ltb (effective_mtu C args dst) (length bytes))) [
        | inl long ↦
            rw (long, reply_packet)
              (
                build_error_packet conn_id,
                refl,
                refl,
                retrieve_from_stream-write_to_buf C (build_error_packet conn_id) rest
                    (error_packet-IsSound conn_id id),
              )
        | inr short ↦
            let fits = data_fits conn_id dst bytes writable short in
            let p = data_packet conn_id (socket_address dst) bytes in
            rw (short, reply_packet, build_packet-fits conn_id dst bytes fits)
              (
                p,
                refl,
                refl,
                retrieve_from_stream-write_to_buf C p rest
                    (data_packet_sound C conn_id (socket_address dst) bytes id w fits),
              )
      ]

-- A client that is idle for the whole timeout is given up, and a packet that comes before is read.
pub retrieve_packet_or_disconnect-idle :
    (wakes later : List Wake) (now last_activity : ℕ)
    → retrieve_packet_or_disconnect wakes ≡ none
    → client_disconnect_timeout ≤ now - last_activity
    → retrieve_packet_or_disconnect (wakes ++ two_seconds now last_activity ∷ later)
      ≡ some (err timed_out)
unfolding retrieve_packet_or_disconnect
retrieve_packet_or_disconnect-idle [] later now last_activity waits long = ground arith
retrieve_packet_or_disconnect-idle (packet_read r ∷ wakes) later now last_activity waits long =
    ground (arith, waits)
retrieve_packet_or_disconnect-idle (two_seconds n l ∷ wakes) later now last_activity waits long =
    ground (arith, waits, retrieve_packet_or_disconnect-idle wakes later now last_activity, long)

-- Two texts that differ only in characters that the log hides.
Alike : ℕ → ℕ → Bytes → Bytes → Type 0
Alike n i [] [] = Unit
Alike n i [] (d ∷ ds) = ⊥
Alike n i (c ∷ cs) [] = ⊥
Alike n i (c ∷ cs) (d ∷ ds) =
    ((c ≡ d)
      ⊎ ((((eqb i 0 || eqb i (n - 1)) || is_separator c) ≡ false)
          × (((eqb i 0 || eqb i (n - 1)) || is_separator d) ≡ false)))
    × Alike n (i + 1) cs ds

mask_from-Alike : (n i : ℕ) (cs ds : Bytes) → Alike n i cs ds → mask_from n i cs ≡ mask_from n i ds
unfolding mask_from Alike
mask_from-Alike n i [] [] a = refl
mask_from-Alike n i [] (d ∷ ds) a = absurd a
mask_from-Alike n i (c ∷ cs) [] a = absurd a
mask_from-Alike n i (c ∷ cs) (d ∷ ds) (inl same, rest) =
    rw (same, mask_from-Alike n (i + 1) cs ds rest) refl
mask_from-Alike n i (c ∷ cs) (d ∷ ds) (inr (e, f), rest) =
    rw (e, f, mask_from-Alike n (i + 1) cs ds rest) refl
