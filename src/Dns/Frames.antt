-- ===== src/Dns/Frames.antt =====
-- dns.rs: taking the complete frames of DNS over TCP from a buffer.
use tun2proxy.Proxy.{Bytes}
use tun2proxy.Dns.{
  Hickory, length, List, drain_loop, Message, ℕ, get_or, ltb, eqb, drain_tcp_messages, drop,
  parse_framed, parse_data_to_dns_message, err, malformed, true,
}
use tun2proxy.Prelude.{
  zero, suc, false, some, inl, inr, [], ◌∷◌, ok, ◌+◌, ◌%◌, ◌≡◌, ◌≤◌, ◌⊎◌, refl, arith, length, List,
  ◌<◌, ◌/◌, ℕ, get_or, ◌++◌, ◌*◌, ltb, eqb, length-append, drop, ap, append_assoc, ◌∙◌, drop-append,
  take-append, if◌then◌else◌, err, Bool-cases, true,
}

abbrev pub frame : Bytes → Bytes
frame payload = (length payload / 256) ∷ (length payload % 256) ∷ payload

-- What follows the last complete frame: too few bytes for a length, or for the message.
abbrev pub IsPartial : Bytes → Type 0
IsPartial tail =
    (length tail < 2)
    ⊎ ((0 < get_or tail 0 0 * 256 + get_or tail 1 0)
        × (length tail < 2 + (get_or tail 0 0 * 256 + get_or tail 1 0)))

two_more :
    (payload : Bytes)
    → 2 + ((length payload / 256) * 256 + length payload % 256) ≡ suc (suc (length payload))
two_more payload = omega arith

module _ (H : Hickory) where
  abbrev pub frames : List (Bytes × Message) → Bytes
  frames [] = []
  frames ((payload, m) ∷ ps) = frame payload ++ frames ps

  abbrev pub messages_of : List (Bytes × Message) → List Message
  messages_of [] = []
  messages_of ((payload, m) ∷ ps) = m ∷ messages_of ps

  -- Payloads that a frame can hold, with the messages that they parse to.
  abbrev pub AreParsed : List (Bytes × Message) → Type 0
  AreParsed [] = Unit
  AreParsed ((payload, m) ∷ ps) =
      (0 < length payload) × (length payload < 65536) × (H.from_vec payload ≡ some m) × AreParsed ps

  drain_loop-tail :
      (fuel : ℕ) (tail : Bytes) → IsPartial tail → drain_loop H (suc fuel) tail ≡ ok ([], tail)
  unfolding drain_loop
  drain_loop-tail fuel tail (inl few) = ground (arith, few)
  drain_loop-tail fuel tail (inr (some_length, few)) = ground (arith, some_length, few)

  drain_loop-frame :
      (fuel : ℕ) (payload : Bytes) (m : Message) (rest : Bytes) (ms : List Message) (left : Bytes)
      → 0 < length payload
      → length payload < 65536
      → H.from_vec payload ≡ some m
      → drain_loop H fuel rest ≡ ok (ms, left)
      → drain_loop H (suc fuel) (frame payload ++ rest) ≡ ok (m ∷ ms, left)
  unfolding drain_loop
  drain_loop-frame fuel payload m rest ms left pos small parsed next =
      let len : (length payload / 256) * 256 + length payload % 256 ≡ length payload =
        omega arith in
      let enough : ltb (suc (suc (length (payload ++ rest)))) 2 ≡ false = ground arith in
      let nonzero : eqb (length payload) 0 ≡ false = ground (arith, pos) in
      let whole : ltb (suc (suc (length (payload ++ rest)))) (2 + length payload) ≡ false =
        ground (arith, length-append payload rest) in
      let bytes = frame payload ++ rest in
      let skip : drop (2 + (get_or bytes 0 0 * 256 + get_or bytes 1 0)) bytes ≡ rest =
        ap (λ k. drop k bytes) (two_more payload) ∙ drop-append payload rest in
      rw (len, enough, nonzero, whole, take-append payload rest, parsed, skip, next) refl

  drain_loop-frames :
      (ps : List (Bytes × Message)) (tail : Bytes) (fuel : ℕ)
      → AreParsed ps
      → IsPartial tail
      → length ps < fuel
      → drain_loop H fuel (frames ps ++ tail) ≡ ok (messages_of ps, tail)
  drain_loop-frames ps tail zero parsed partial h = elim h [ ]
  drain_loop-frames [] tail (suc fuel) parsed partial h = drain_loop-tail fuel tail partial
  drain_loop-frames ((payload, m) ∷ ps) tail (suc fuel) (pos, small, parsed, others) partial h =
      ap (λ b. drain_loop H (suc fuel) b) (append_assoc (frame payload) (frames ps) tail)
      ∙ drain_loop-frame fuel payload m (frames ps ++ tail) (messages_of ps) tail pos small parsed
          (drain_loop-frames ps tail fuel others partial (omega (arith, h)))

  length-frames : (ps : List (Bytes × Message)) → length ps ≤ length (frames ps)
  length-frames [] = omega arith
  length-frames ((payload, m) ∷ ps) =
      omega (arith, length-frames ps, length-append payload (frames ps))

  -- From a buffer of complete frames and a part of one more, all messages are taken in order, and the
  -- part stays.
  pub drain_tcp_messages-frames :
      (ps : List (Bytes × Message)) (tail : Bytes)
      → AreParsed ps
      → IsPartial tail
      → drain_tcp_messages H (frames ps ++ tail) ≡ (tail, ok (messages_of ps))
  unfolding drain_tcp_messages
  drain_tcp_messages-frames ps tail parsed partial =
      rw
        (
          drain_loop-frames ps tail (suc (length (frames ps ++ tail))) parsed partial
              (omega (arith, length-frames ps, length-append (frames ps) tail)),
          drain_tcp_messages,
        )
        refl

  -- One frame is parsed as its payload, and anything after it is refused.
  pub parse_framed-frame :
      (payload rest : Bytes)
      → length payload < 65536
      → parse_framed H (frame payload ++ rest) ≡ (
          if eqb (length rest) 0
          then parse_data_to_dns_message H (payload ++ rest)
          else err malformed)
  unfolding parse_framed
  parse_framed-frame payload rest small =
      let len : (length payload / 256) * 256 + length payload % 256 ≡ length payload =
        omega arith in
      let two : ltb (suc (suc (length (payload ++ rest)))) 2 ≡ false = ground arith in
      elim (Bool-cases (eqb (length rest) 0)) [
        | inl none_left ↦
            let whole : eqb (suc (suc (length (payload ++ rest)))) (length payload + 2) ≡ true =
              ground (arith, none_left, length-append payload rest) in
            rw (two, len, whole, none_left) refl
        | inr some_left ↦
            let more : eqb (suc (suc (length (payload ++ rest)))) (length payload + 2) ≡ false =
              ground (arith, some_left, length-append payload rest) in
            rw (two, len, more, some_left) refl
      ]
