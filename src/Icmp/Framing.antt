-- ===== src/Icmp/Framing.antt =====
-- icmp.rs: what is written for a packet is read back, however the writes are cut.
use tun2proxy.Icmp.{
  read_packet, Write, accepted, broken_pipe, write_loop, write_packet, framed, max_echo_packet,
  get_or,
}
use tun2proxy.Proxy.{Bytes}
use tun2proxy.Prelude.{
  refl, true, false, some, [], ◌∷◌, ok, arith, zero, suc, ◌+◌, ◌*◌, ◌/◌, ◌%◌, ◌≡◌, ◌≢◌, ◌≤◌, ◌++◌,
  ap, ℕ, List, length, take, drop, eqb, ltb, leb, take-append, drop-append, take-append-drop,
  length-append, length-drop, get_or, Bool-cases, inl, inr, subst,
}

-- Every write takes some bytes.
abbrev pub AllProgress : List Write → Type 0
AllProgress [] = Unit
AllProgress (accepted n ∷ writes) = (n ≢ 0) × AllProgress writes
AllProgress (broken_pipe ∷ writes) = ⊥

write_loop-all :
    (writes : List Write) (bs : Bytes)
    → AllProgress writes
    → length bs ≤ length writes
    → write_loop writes bs ≡ (bs, some (ok tt))
unfolding write_loop
write_loop-all writes [] p le = refl
write_loop-all [] (b ∷ bs) p le = ground arith
write_loop-all (broken_pipe ∷ writes) (b ∷ bs) p le = absurd p
write_loop-all (accepted n ∷ writes) (b ∷ bs) (positive, p) le =
    let rest =
      write_loop-all writes (drop n (b ∷ bs)) p
        (omega (arith, le, positive, length-drop n (b ∷ bs))) in
    let some_bytes : eqb n 0 ≡ false = ground (arith, positive) in
    rw (some_bytes, rest) (ap (λ xs. (xs, some (ok tt))) (take-append-drop n (b ∷ bs)))

read_packet-framed :
    (packet rest : Bytes)
    → 8 ≤ length packet
    → length packet ≤ max_echo_packet
    → read_packet (framed packet ++ rest) ≡ ok (packet, rest)
unfolding read_packet
read_packet-framed packet rest long fits =
    let len : length packet / 256 * 256 + length packet % 256 ≡ length packet = omega arith in
    let some_bytes : ltb (length packet) 8 ≡ false = ground arith in
    let there : ltb (length (packet ++ rest)) (length packet) ≡ false =
      ground (arith, length-append packet rest) in
    let two : ltb (suc (suc (length (packet ++ rest)))) 2 ≡ false = ground arith in
    rw (len, two, some_bytes, there, take-append packet rest, drop-append packet rest) refl

length-take : (n : ℕ) (xs : Bytes) → n ≤ length xs → length (take n xs) ≡ n
length-take zero xs le = refl
length-take (suc n) [] le = ground arith
length-take (suc n) (x ∷ xs) le = ap suc (length-take n xs (omega arith))

-- A packet that is read is long enough for the header of an Echo packet.
pub length-read_packet :
    (stream packet rest : Bytes) → read_packet stream ≡ ok (packet, rest) → 8 ≤ length packet
unfolding read_packet
length-read_packet stream packet rest h =
    let len = get_or stream 0 0 * 256 + get_or stream 1 0 in
    elim (Bool-cases (ltb (length stream) 2)) [
      | inl few ↦ ground (arith, (rw (few, read_packet) at h))
      | inr two ↦ elim (Bool-cases (ltb len 8)) [
        | inl few ↦ ground (arith, (rw (two, few, read_packet) at h))
        | inr long ↦ elim (Bool-cases (ltb (length (drop 2 stream)) len)) [
          | inl few ↦ ground (arith, (rw (two, long, few, read_packet) at h))
          | inr there ↦
              let e : take len (drop 2 stream) ≡ packet =
                cc (rw (two, long, there, read_packet) at h) in
              let le : len ≤ length (drop 2 stream) = ground (arith, there) in
              subst (λ p. 8 ≤ length p) e (ground (arith, length-take len (drop 2 stream) le, long))
        ]
      ]
    ]

-- A packet of a valid length is written completely when every write takes some bytes and there are
-- as many writes as bytes of the frame, however the writes are cut, and what is written is read
-- back as the packet, with what follows it.
pub write_packet-read_packet :
    (writes : List Write) (packet rest : Bytes)
    → 8 ≤ length packet
    → length packet ≤ max_echo_packet
    → AllProgress writes
    → length packet + 2 ≤ length writes
    → ((write_packet writes packet).1 ≡ some (ok tt))
      × (read_packet ((write_packet writes packet).0 ++ rest) ≡ ok (packet, rest))
unfolding write_packet
write_packet-read_packet writes packet rest long fits progress enough =
    let a : leb 8 (length packet) ≡ true = ground arith in
    let b : leb (length packet) max_echo_packet ≡ true = ground arith in
    let all = write_loop-all writes (framed packet) progress (omega arith) in
    rw (a, b, all, write_packet) (refl, read_packet-framed packet rest long fits)
