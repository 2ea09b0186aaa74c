-- ===== src/Udpgw/Frames.antt =====
-- udpgw.rs: what is written for a packet is read back, whatever follows it.
use tun2proxy.Udpgw.{
  AddressCodec, Packet, UdpgwHeader, has_flag, data_flag, retrieve_front, retrieve_optional,
  retrieve_header, header_from, header_bytes, write_optional, optional_len, static_len,
  write_to_buf, be16,
}
use tun2proxy.Socks.{Address}
use tun2proxy.Proxy.{Bytes}
use tun2proxy.Prelude.{
  refl, suc, true, false, none, some, [], ◌∷◌, ok, arith, ◌+◌, ◌/◌, ◌%◌, ◌≡◌, ◌<◌, ◌++◌, ap, ◌∙◌,
  sym, ltb, length, ℕ, Option, ◌-◌, length-append, drop, append-nil, append_assoc, drop-append,
  drop-drop,
}

module _ (C : AddressCodec) where
  -- The flag for an address is set where there is one.
  abbrev pub IsFlagged : ℕ → Option Address → Type 0
  IsFlagged flags none = has_flag flags data_flag ≡ false
  IsFlagged flags (some a) = (has_flag flags data_flag ≡ true) × C.IsWritable a

  -- A packet that a frame can hold.
  pub record IsSound (p : Packet) : Type 0 where
    pub conn_id_small : p.header.conn_id < 65536
    pub fits : static_len + optional_len C p.address + length p.payload < 65536
    pub flagged : IsFlagged p.header.flags p.address

  abbrev pub body : Packet → Bytes
  body p = header_bytes p.header ++ (write_optional C p.address ++ p.payload)

  length-write_optional : (a : Option Address) → length (write_optional C a) ≡ optional_len C a
  length-write_optional none = refl
  length-write_optional (some a) = C.length-write_address a

  pub length-body :
      (p : Packet) → length (body p) ≡ static_len + optional_len C p.address + length p.payload
  length-body p =
      omega (
        arith,
        length-append (write_optional C p.address) p.payload,
        length-write_optional p.address,
      )

  be16_lem : (n : ℕ) (bs : Bytes) → be16 ((n / 256) ∷ (n % 256) ∷ bs) ≡ n
  be16_lem n bs = omega arith

  pub write_to_buf-body :
      (p : Packet)
      → IsSound p
      → write_to_buf C p ≡ (length (body p) / 256) ∷ (length (body p) % 256) ∷ body p
  unfolding write_to_buf
  write_to_buf-body p s =
      let e : (2 + static_len + optional_len C p.address + length p.payload - 2) % 65536
          ≡ length (body p) =
        omega (arith, s.fits, length-body p) in
      ap (λ n. (n / 256) ∷ (n % 256) ∷ body p) e

  header_lem : (h : UdpgwHeader) (rest : Bytes) → retrieve_header (header_bytes h ++ rest) ≡ ok h
  unfolding retrieve_header header_from
  header_lem h rest =
      let few : ltb (suc (suc (suc (length rest)))) 3 ≡ false = ground arith in
      rw few (ap (λ n. ok (record { flags = h.flags; conn_id = n })) (be16_lem h.conn_id []))

  optional_lem :
      (flags : ℕ) (a : Option Address) (rest : Bytes)
      → IsFlagged flags a
      → retrieve_optional C flags (write_optional C a ++ rest) ≡ ok (a, optional_len C a)
  unfolding retrieve_optional
  optional_lem flags none rest f = rw f refl
  optional_lem flags (some a) rest (f, w) = rw (f, C.retrieve-write a rest w) refl

  pub front_lem :
      (p : Packet) (rest : Bytes)
      → IsSound p
      → retrieve_front C (header_bytes p.header ++ (write_optional C p.address ++ rest))
        ≡ ok (p.header, p.address, static_len + optional_len C p.address)
  unfolding retrieve_front
  front_lem p rest s =
      rw
        (
          header_lem p.header (write_optional C p.address ++ rest),
          optional_lem p.header.flags p.address rest s.flagged,
        )
        refl

  pub drop-front :
      (p : Packet) (rest : Bytes)
      → drop (static_len + optional_len C p.address) (body p ++ rest) ≡ p.payload ++ rest
  drop-front p rest =
      sym (drop-drop (optional_len C p.address) static_len (body p ++ rest))
      ∙ ap (λ k. drop k ((write_optional C p.address ++ p.payload) ++ rest))
          (sym (length-write_optional p.address))
      ∙ ap (drop (length (write_optional C p.address)))
          (append_assoc (write_optional C p.address) p.payload rest)
      ∙ drop-append (write_optional C p.address) (p.payload ++ rest)

  pub drop-front_all :
      (p : Packet) → drop (static_len + optional_len C p.address) (body p) ≡ p.payload
  drop-front_all p =
      ap (drop (static_len + optional_len C p.address)) (sym (append-nil (body p)))
      ∙ drop-front p []
      ∙ append-nil p.payload

  pub body_long :
      (p : Packet) → ltb (length (body p)) (static_len + optional_len C p.address) ≡ false
  body_long p = ground (arith, length-body p)
