-- ===== src/Udpgw/Chunks.antt =====
-- udpgw.rs: a packet comes out of the reader however its bytes are cut into reads.
use tun2proxy.Udpgw.Reader.{recv_held, recv_on}
use tun2proxy.Udpgw.Frames.{
  IsSound, body, length-body, write_to_buf-body, front_lem, body_long, drop-front_all,
}
use tun2proxy.Udpgw.{
  AddressCodec, Packet, UdpgwError, UdpGwResponse, Read, chunk, finished, recv_udpgw_packet_csafe,
  held_frame, take_frame, parse_udp_response, packet_len, write_to_buf, be16, optional_len,
  static_len,
}
use tun2proxy.Proxy.{Bytes}
use tun2proxy.Prelude.{
  refl, suc, true, false, none, some, [], ◌∷◌, ok, arith, inl, inr, ◌+◌, ◌*◌, ◌/◌, ◌%◌, ◌≡◌, ◌≤◌,
  ◌<◌, ◌++◌, ap, ◌∙◌, sym, ◌>>=◌, ℕ, List, Result, length, get_or, leb, drop, take-append-drop, ltb,
  length-append, drop-drop, take-append, take-append_within, take, drop-append, drop-append_within,
  append-nil, Bool-cases, leb→le, append_assoc,
}

abbrev pub flatten : List Bytes → Bytes
flatten [] = []
flatten (c ∷ cs) = c ++ flatten cs

-- The reads that give the chunks.
abbrev pub reads_of : List Bytes → List Read
reads_of [] = []
reads_of (c ∷ cs) = chunk c ∷ reads_of cs

abbrev pub AreFilled : List Bytes → Type 0
AreFilled [] = Unit
AreFilled ([] ∷ cs) = ⊥
AreFilled ((b ∷ bs) ∷ cs) = AreFilled cs

module _ (C : AddressCodec) (udp_mtu : ℕ) (p : Packet) (s : IsSound C p) where
  -- What the reader returns for the packet.
  abbrev pub answer : Result UdpgwError (ℕ × UdpGwResponse)
  answer = do response ← parse_udp_response udp_mtu p; ok (packet_len C p, response)

  abbrev split : Bytes
  split = (length (body C p) / 256) ∷ (length (body C p) % 256) ∷ body C p

  split_len : (rest : Bytes) → be16 (split ++ rest) ≡ length (body C p)
  split_len rest = omega arith

  take_frame-split : (rest : Bytes) → take_frame C udp_mtu (split ++ rest) ≡ (rest, answer)
  unfolding take_frame
  take_frame-split rest =
      let front = static_len + optional_len C p.address in
      let n = length (body C p) in
      let whole : n + 2 ≡ suc (suc n) = omega arith in
      let frame : take (be16 (split ++ rest) + 2) (split ++ rest) ≡ split =
        ap (λ k. take (k + 2) (split ++ rest)) (split_len rest)
        ∙ ap (λ k. take k (split ++ rest)) whole
        ∙ take-append split rest in
      let left : drop (be16 (split ++ rest) + 2) (split ++ rest) ≡ rest =
        ap (λ k. drop (k + 2) (split ++ rest)) (split_len rest)
        ∙ ap (λ k. drop k (split ++ rest)) whole
        ∙ drop-append split rest in
      let payload : drop (2 + front) (take (be16 (split ++ rest) + 2) (split ++ rest)) ≡ p.payload =
        ap (drop (2 + front)) frame ∙ sym (drop-drop front 2 split) ∙ drop-front_all C p in
      let full : 2 + front + length p.payload ≡ packet_len C p = omega arith in
      let long : ltb (be16 (split ++ rest)) front ≡ false =
        ap (λ k. ltb k front) (split_len rest) ∙ body_long C p in
      rw (take_frame, frame, front_lem C p p.payload s, long, left, payload, full) refl

  held_frame-split : (rest : Bytes) → held_frame C udp_mtu (split ++ rest) ≡ some (rest, answer)
  unfolding held_frame
  held_frame-split rest =
      let n = length (body C p) in
      let len : (n / 256) * 256 + n % 256 ≡ n = omega arith in
      let few : leb 2 (suc (suc (length (body C p ++ rest)))) ≡ true = ground arith in
      let three : leb 3 n ≡ true = ground (arith, length-body C p) in
      let whole : leb (n + 2) (suc (suc (length (body C p ++ rest)))) ≡ true =
        ground (arith, length-append (body C p) rest) in
      rw (few, len, three, whole) (ap some (take_frame-split rest))

  -- A first part of the packet's bytes is not yet a frame.
  held_frame-part :
      (acc more rest : Bytes)
      → acc ++ more ≡ split ++ rest
      → length acc < length split
      → held_frame C udp_mtu acc ≡ none
  unfolding held_frame
  held_frame-part [] more rest e lt = ground arith
  held_frame-part (a ∷ []) more rest e lt = ground arith
  held_frame-part (a ∷ b ∷ acc) more rest e lt =
      let n = length (body C p) in
      let first : a ≡ n / 256 = ap (λ bs. get_or bs 0 0) e in
      let second : b ≡ n % 256 = ap (λ bs. get_or bs 1 0) e in
      let len : a * 256 + b ≡ n = omega (arith, first, second) in
      let few : leb 2 (suc (suc (length acc))) ≡ true = ground arith in
      let three : leb 3 n ≡ true = ground (arith, length-body C p) in
      let small : ltb n 3 ≡ false = ground (arith, length-body C p) in
      let part : leb (n + 2) (suc (suc (length acc))) ≡ false = ground (arith, lt) in
      rw (few, len, three, part, small) refl

  -- The reader has returned the packet, and what it has not returned is `rest`.
  abbrev pub Received : Bytes → List Bytes → Bytes → Type 0
  Received acc chunks rest =
      (held : Bytes) × (left : List Bytes) × (recv_udpgw_packet_csafe C udp_mtu acc
          (reads_of chunks)
        ≡ finished held answer (reads_of left))
      × (held ++ flatten left ≡ rest)

  received :
      (acc : Bytes) (chunks : List Bytes) (rest : Bytes)
      → acc ++ flatten chunks ≡ split ++ rest
      → length split ≤ length acc
      → Received acc chunks rest
  received acc chunks rest e le =
      let k = length split in
      let front : acc ≡ split ++ drop k acc =
        sym (take-append-drop k acc)
        ∙ ap (λ bs. bs ++ drop k acc)
            (sym (take-append_within k acc (flatten chunks) le)
              ∙ ap (take k) e
              ∙ take-append split rest) in
      (
        drop k acc,
        chunks,
        recv_held C udp_mtu acc (drop k acc) answer (reads_of chunks)
            (ap (held_frame C udp_mtu) front ∙ held_frame-split (drop k acc)),
        sym (drop-append_within k acc (flatten chunks) le) ∙ ap (drop k) e ∙ drop-append split rest,
      )

  first_chunk :
      (acc c : Bytes) (chunks : List Bytes) (rest : Bytes)
      → (0 < length c)
      → held_frame C udp_mtu acc ≡ none
      → Received (acc ++ c) chunks rest
      → Received acc (c ∷ chunks) rest
  first_chunk acc [] chunks rest filled e r = elim filled [ ]
  first_chunk acc (b ∷ bs) chunks rest filled e (held, left, r, same) =
      (held, left, recv_on C udp_mtu acc (chunk (b ∷ bs)) (reads_of chunks) e ∙ r, same)

  split-Received :
      (acc : Bytes) (chunks : List Bytes) (rest : Bytes)
      → AreFilled chunks
      → acc ++ flatten chunks ≡ split ++ rest
      → Received acc chunks rest
  split-Received acc [] rest filled e =
      received acc [] rest e
        (omega (arith, ap length (sym (append-nil acc) ∙ e), length-append split rest))
  split-Received acc ([] ∷ chunks) rest filled e = absurd filled
  split-Received acc ((b ∷ bs) ∷ chunks) rest filled e =
      elim (Bool-cases (leb (length split) (length acc))) [
        | inl enough ↦
            received acc ((b ∷ bs) ∷ chunks) rest e (leb→le (length split) (length acc) enough)
        | inr few ↦
            first_chunk acc (b ∷ bs) chunks rest (omega arith)
              (held_frame-part acc ((b ∷ bs) ++ flatten chunks) rest e (ground (arith, few)))
              (split-Received (acc ++ (b ∷ bs)) chunks rest filled
                (append_assoc acc (b ∷ bs) (flatten chunks) ∙ e))
      ]

  -- However the bytes of a packet and of what follows it are cut into reads, the reader returns the
  -- packet, and what it has not returned, held or still to be read, is exactly what follows it.
  pub recv_udpgw_packet_csafe-chunks :
      (acc : Bytes) (chunks : List Bytes) (rest : Bytes)
      → AreFilled chunks
      → acc ++ flatten chunks ≡ write_to_buf C p ++ rest
      → (held : Bytes) × (left : List Bytes) × (recv_udpgw_packet_csafe C udp_mtu acc
            (reads_of chunks)
          ≡ finished held answer (reads_of left))
        × (held ++ flatten left ≡ rest)
  recv_udpgw_packet_csafe-chunks acc chunks rest filled e =
      split-Received acc chunks rest filled (e ∙ ap (λ bs. bs ++ rest) (write_to_buf-body C p s))
