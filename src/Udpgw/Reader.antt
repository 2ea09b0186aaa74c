-- ===== src/Udpgw/Reader.antt =====
-- udpgw.rs: the reader of frames that may be cancelled.
use tun2proxy.Udpgw.{
  timed_out, read_failed, end_of_stream, AddressCodec, Read, Progress, pending, finished,
  recv_udpgw_packet_csafe, held_frame, chunk, out_of_time, broken, UdpgwError, UdpGwResponse,
}
use tun2proxy.Proxy.{Bytes}
use tun2proxy.Prelude.{
  refl, none, some, [], ◌∷◌, ◌≡◌, ◌++◌, inl, inr, ℕ, List, Option-cases, ap, Result, err, sym, ◌∙◌,
}

module _ (C : AddressCodec) (udp_mtu : ℕ) where
  pub recv_held :
      (acc acc' : Bytes) (r : Result UdpgwError (ℕ × UdpGwResponse)) (reads : List Read)
      → held_frame C udp_mtu acc ≡ some (acc', r)
      → recv_udpgw_packet_csafe C udp_mtu acc reads ≡ finished acc' r reads
  unfolding recv_udpgw_packet_csafe
  recv_held acc acc' r [] e = rw (e, recv_udpgw_packet_csafe) refl
  recv_held acc acc' r (read ∷ reads) e = rw (e, recv_udpgw_packet_csafe) refl

  recv_pending :
      (acc : Bytes)
      → held_frame C udp_mtu acc ≡ none
      → recv_udpgw_packet_csafe C udp_mtu acc [] ≡ pending acc
  unfolding recv_udpgw_packet_csafe
  recv_pending acc e = rw (e, recv_udpgw_packet_csafe) refl

  abbrev pub read_on : Bytes → Read → List Read → Progress
  read_on acc out_of_time reads = finished acc (err timed_out) reads
  read_on acc broken reads = finished acc (err read_failed) reads
  read_on acc (chunk []) reads = finished acc (err end_of_stream) reads
  read_on acc (chunk (b ∷ bs)) reads = recv_udpgw_packet_csafe C udp_mtu (acc ++ (b ∷ bs)) reads

  pub recv_on :
      (acc : Bytes) (read : Read) (reads : List Read)
      → held_frame C udp_mtu acc ≡ none
      → recv_udpgw_packet_csafe C udp_mtu acc (read ∷ reads) ≡ read_on acc read reads
  unfolding recv_udpgw_packet_csafe
  recv_on acc out_of_time reads e = rw (e, recv_udpgw_packet_csafe) refl
  recv_on acc broken reads e = rw (e, recv_udpgw_packet_csafe) refl
  recv_on acc (chunk []) reads e = rw (e, recv_udpgw_packet_csafe) refl
  recv_on acc (chunk (b ∷ bs)) reads e = rw (e, recv_udpgw_packet_csafe) refl

  -- The caller goes on with the bytes that a cancelled call has left, when more can be read.
  abbrev pub resumed : Progress → List Read → Progress
  resumed (pending acc) reads = recv_udpgw_packet_csafe C udp_mtu acc reads
  resumed (finished acc r left) reads = finished acc r (left ++ reads)

  read_on-append :
      (before after : List Read)
      → ((acc : Bytes)
          → recv_udpgw_packet_csafe C udp_mtu acc (before ++ after)
            ≡ resumed (recv_udpgw_packet_csafe C udp_mtu acc before) after)
      → (acc : Bytes) (read : Read)
      → read_on acc read (before ++ after) ≡ resumed (read_on acc read before) after
  read_on-append before after ih acc out_of_time = refl
  read_on-append before after ih acc broken = refl
  read_on-append before after ih acc (chunk []) = refl
  read_on-append before after ih acc (chunk (b ∷ bs)) = ih (acc ++ (b ∷ bs))

  -- Dropping the reader after any of its reads and calling it again loses nothing: the two calls
  -- return what one call returns.
  pub recv_udpgw_packet_csafe-append :
      (acc : Bytes) (before after : List Read)
      → recv_udpgw_packet_csafe C udp_mtu acc (before ++ after)
        ≡ resumed (recv_udpgw_packet_csafe C udp_mtu acc before) after
  recv_udpgw_packet_csafe-append acc [] after = elim (Option-cases (held_frame C udp_mtu acc)) [
    | inl e ↦ ap (λ p. resumed p after) (sym (recv_pending acc e))
    | inr ((acc', r), e) ↦
        recv_held acc acc' r after e ∙ ap (λ p. resumed p after) (sym (recv_held acc acc' r [] e))
  ]
  recv_udpgw_packet_csafe-append acc (read ∷ before) after =
      elim (Option-cases (held_frame C udp_mtu acc)) [
        | inr ((acc', r), e) ↦
            recv_held acc acc' r (read ∷ (before ++ after)) e
            ∙ ap (λ p. resumed p after) (sym (recv_held acc acc' r (read ∷ before) e))
        | inl e ↦
            recv_on acc read (before ++ after) e
            ∙ read_on-append before after (λ b. recv_udpgw_packet_csafe-append b before after) acc
                read
            ∙ ap (λ p. resumed p after) (sym (recv_on acc read before e))
      ]
