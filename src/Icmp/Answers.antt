-- ===== src/Icmp/Answers.antt =====
-- icmp.rs: every packet that a worker puts into the tunnel answers its request.
use tun2proxy.Icmp.Framing.{length-read_packet}
use tun2proxy.Icmp.Replies.{
  InternetChecksum, Turn, pseudo_header, packet_checksum, reply_type, is_reply_to, with_checksum,
  exchange, run_flow, written,
}
use tun2proxy.Icmp.Flows.{EchoPacket}
use tun2proxy.Icmp.{read_packet, Write, write_packet, be16_bytes}
use tun2proxy.Proxy.{Bytes}
use tun2proxy.Ip.{IpAddr, v4, v6, octets}
use tun2proxy.Prelude.{
  refl, true, inl, inr, [], ◌∷◌, ok, arith, zero, suc, ◌/◌, ◌%◌, ◌≡◌, ◌≤◌, ◌++◌, ◌∙◌, ap, sym, ℕ,
  Bool, List, length, drop, get_or, leb, length-append, not, bytes_eq, Bool-cases, Result-cases,
  append_assoc, subst, bytes_beq_iff,
}

length-octets : (k n : ℕ) → length (octets k n) ≡ k
unfolding octets
length-octets zero n = refl
length-octets (suc k) n =
    omega (arith, length-append (octets k (n / 256)) ((n % 256) ∷ []), length-octets k (n / 256))

even_front :
    (len : ℕ) (s d : IpAddr) (a b : ℕ) → length (pseudo_header len s d ++ (a ∷ b ∷ [])) % 2 ≡ 0
unfolding pseudo_header
even_front len (v6 s) (v6 d) a b =
    let tail : Bytes = 0 ∷ 0 ∷ 0 ∷ 58 ∷ [] in
    omega (
      arith,
      length-octets 16 s,
      length-octets 16 d,
      length-octets 4 len,
      length-append (octets 4 len) tail,
      length-append (octets 16 d) (octets 4 len ++ tail),
      length-append (octets 16 s) (octets 16 d ++ (octets 4 len ++ tail)),
      length-append (octets 16 s ++ (octets 16 d ++ (octets 4 len ++ tail))) (a ∷ b ∷ []),
    )
even_front len (v4 s) d a b = omega arith
even_front len (v6 s) (v4 d) a b = omega arith

module _ (I : InternetChecksum) where
  -- What a packet in the tunnel has as the answer to a request.
  pub record IsAnswer (ipv6 : Bool) (packet : EchoPacket) (answer : Bytes) : Type 0 where
    pub same_length : length answer ≡ length packet.payload
    pub has_type : get_or answer 0 0 ≡ reply_type I ipv6
    pub has_code : get_or answer 1 0 ≡ 0
    pub same_rest : drop 4 answer ≡ drop 4 packet.payload
    pub verifies : packet_checksum I answer packet.dst_addr packet.src_addr ≡ 0

  -- A reply with its first four bytes in sight.
  verified :
      (packet : EchoPacket) (a b c d : ℕ) (rest : Bytes)
      → packet_checksum I
          (with_checksum I packet (a ∷ b ∷ c ∷ d ∷ rest))
          packet.dst_addr
          packet.src_addr
        ≡ 0
  unfolding packet_checksum with_checksum
  verified packet a b c d rest =
      let p = pseudo_header (suc (suc (suc (suc (length rest))))) packet.dst_addr packet.src_addr in
      let zeroed = append_assoc p (a ∷ b ∷ []) (0 ∷ 0 ∷ rest) in
      let n = I.checksum (p ++ (a ∷ b ∷ 0 ∷ 0 ∷ rest)) in
      sym (ap I.checksum (append_assoc p (a ∷ b ∷ []) (be16_bytes n ++ rest)))
      ∙ subst (λ z. I.checksum ((p ++ (a ∷ b ∷ [])) ++ (be16_bytes (I.checksum z) ++ rest)) ≡ 0)
          zeroed
          (I.checksum_verifies (p ++ (a ∷ b ∷ [])) rest
            (even_front _ packet.dst_addr packet.src_addr a b))

  with_checksum-IsAnswer :
      (ipv6 : Bool) (packet : EchoPacket) (response : Bytes)
      → 8 ≤ length response
      → is_reply_to I ipv6 packet.payload response ≡ true
      → IsAnswer ipv6 packet (with_checksum I packet response)
  unfolding is_reply_to with_checksum
  with_checksum-IsAnswer ipv6 packet (a ∷ b ∷ c ∷ d ∷ rest) long h = record {
    same_length = ground (arith, h);
    has_type = ground (arith, h);
    has_code = ground (arith, h);
    same_rest = ground (arith, h, bytes_beq_iff rest (drop 4 packet.payload));
    verifies = verified packet a b c d rest;
  }
  with_checksum-IsAnswer ipv6 packet [] long h = ground arith
  with_checksum-IsAnswer ipv6 packet (a ∷ []) long h = ground arith
  with_checksum-IsAnswer ipv6 packet (a ∷ b ∷ []) long h = ground arith
  with_checksum-IsAnswer ipv6 packet (a ∷ b ∷ c ∷ []) long h = ground arith

  exchange-IsAnswer :
      (ipv6 : Bool) (writes : List Write) (packet : EchoPacket) (stream answer rest : Bytes)
      → exchange I ipv6 writes packet stream ≡ ok (answer, rest)
      → IsAnswer ipv6 packet answer
  unfolding exchange
  exchange-IsAnswer ipv6 writes packet stream answer rest h =
      elim (Result-cases (written I (write_packet writes packet.payload).1)) [
        | inr (e, f) ↦ ground (arith, (rw (f, exchange) at h))
        | inl (u, f) ↦ elim (Result-cases (read_packet stream)) [
          | inr (e, g) ↦ ground (arith, (rw (f, g, exchange) at h))
          | inl ((response, left), g) ↦
              elim (Bool-cases (is_reply_to I ipv6 packet.payload response)) [
                | inr other ↦ ground (arith, (rw (f, g, other, exchange) at h))
                | inl same ↦
                    let e : with_checksum I packet response ≡ answer =
                      cc (rw (f, g, same, exchange) at h) in
                    subst (IsAnswer ipv6 packet) e (
                      with_checksum-IsAnswer ipv6 packet response
                        (length-read_packet stream response left g) same)
              ]
        ]
      ]

  pub AllAnswers : Bool → List (EchoPacket × Bytes) → Type 0
  AllAnswers ipv6 [] = Unit
  AllAnswers ipv6 ((packet, answer) ∷ sent) = IsAnswer ipv6 packet answer × AllAnswers ipv6 sent

  -- Whatever the proxy sends, every packet that the worker of a flow puts into the tunnel answers
  -- its request: it has the length of the request, the type and code of a reply, the request's
  -- identifier, sequence number and data, and a checksum that verifies.
  pub run_flow-AllAnswers :
      (ipv6 : Bool) (stream : Bytes) (turns : List Turn)
      → AllAnswers ipv6 (run_flow I ipv6 stream turns)
  unfolding run_flow AllAnswers
  run_flow-AllAnswers ipv6 stream [] = tt
  run_flow-AllAnswers ipv6 stream (turn ∷ turns) = elim (Bool-cases (leb turn.deadline turn.now)) [
    | inl late ↦ rw (late, run_flow) (run_flow-AllAnswers ipv6 stream turns)
    | inr early ↦ elim (Bool-cases (not turn.in_time)) [
      | inl out ↦ rw (early, out, run_flow) tt
      | inr done ↦ elim (Result-cases (exchange I ipv6 turn.writes turn.packet stream)) [
        | inr (e, f) ↦ rw (early, done, f, run_flow) tt
        | inl ((answer, rest), f) ↦
            rw (early, done, f, run_flow)
              (
                exchange-IsAnswer ipv6 turn.writes turn.packet stream answer rest f,
                run_flow-AllAnswers ipv6 rest turns,
              )
      ]
    ]
  ]
