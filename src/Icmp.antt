-- ===== src/Icmp.antt =====
-- icmp.rs: the framing of Echo packets, the flows with their queues, the request to the local proxy,
-- and the test on a reply before it is put into the tunnel. The Internet checksum is code of the crate
-- internet_checksum and the parsing of addresses code of std: both are parameters.
pub mod Framing
pub mod Flows
pub mod Limits
pub mod Replies
pub mod Answers
use tun2proxy.Maps.Assoc.{lookup, without}
use tun2proxy.Socks.{Address, socket_address, domain_address}
use tun2proxy.Proxy.{Bytes, SocketAddr, UserKey}
use tun2proxy.Ip.{IpAddr, v4, v6, ip_eq, is_ipv4, ip_beq_iff, octets}
use tun2proxy.Prelude.{
  true, false, none, some, [], ◌∷◌, ok, err, arith, ◌+◌, ◌-◌, ◌*◌, ◌/◌, ◌%◌, ◌^◌, ◌≡◌, ◌<◌, ◌++◌,
  ◌&&◌, ◌||◌, ◌==◌, ◌↔◌, ◌>>=◌, ◌>>◌, Eq, Option, ℕ, Bool, eqb, List, ltb, leb, length, take, drop,
  get_or, if◌then◌else◌, nat_eq, not, Result, guard, bytes_eq,
}

abbrev pub socks5_echo : ℕ
socks5_echo = 224

abbrev pub max_echo_packet : ℕ
max_echo_packet = 65535

abbrev pub max_flows : ℕ
max_flows = 64

abbrev pub queue_depth : ℕ
queue_depth = 4

-- In milliseconds.
abbrev pub echo_timeout : ℕ
echo_timeout = 4000

pub data IcmpError : Type 0 where
  end_of_stream invalid_length not_written host_too_long rejected no_match : IcmpError
  needs_loopback out_of_time : IcmpError

-- One packet at the front of a stream, and what follows it.
unfoldable pub read_packet : Bytes → Result IcmpError (Bytes × Bytes)
read_packet stream =
    let len = get_or stream 0 0 * 256 + get_or stream 1 0 in
    do
      guard (not (ltb (length stream) 2)) end_of_stream
      guard (not (ltb len 8)) invalid_length
      guard (not (ltb (length (drop 2 stream)) len)) end_of_stream
      ok (take len (drop 2 stream), drop len (drop 2 stream))

-- What `write_vectored` gives: a number of bytes, at most what is pending, or an error.
pub data Write : Type 0 where
  accepted : ℕ → Write
  broken_pipe : Write

-- What was written, and whether all of it was. None when it still waits.
unfoldable pub write_loop : List Write → Bytes → Bytes × Option (Result IcmpError (Unit {0}))
write_loop writes [] = ([], some (ok tt))
write_loop [] (b ∷ bs) = ([], none)
write_loop (broken_pipe ∷ writes) (b ∷ bs) = ([], some (err not_written))
write_loop (accepted n ∷ writes) (b ∷ bs) =
    let rest = write_loop writes (drop n (b ∷ bs)) in
    if eqb n 0 then ([], some (err not_written)) else (take n (b ∷ bs) ++ rest.0, rest.1)

abbrev pub be16_bytes : ℕ → Bytes
be16_bytes n = (n / 256) ∷ (n % 256) ∷ []

abbrev pub framed : Bytes → Bytes
framed packet = be16_bytes (length packet) ++ packet

unfoldable pub write_packet : List Write → Bytes → Bytes × Option (Result IcmpError (Unit {0}))
write_packet writes packet =
    if leb 8 (length packet) && leb (length packet) max_echo_packet
    then write_loop writes (framed packet)
    else ([], some (err invalid_length))

-- socks5_impl::ProxyType and ProxyParameters
pub data ProxyType : Type 0 where
  http socks4 socks5 mixed no_proxy : ProxyType

pub record ProxyParameters : Type 0 where
  pub proxy_type : ProxyType
  pub addr : Option Address
  pub credentials : Option UserKey

abbrev pub is_loopback : IpAddr → Bool
is_loopback (v4 n) = eqb (n / 2 ^ 24) 127
is_loopback (v6 n) = eqb n 1

abbrev pub is_socks5 : ProxyType → Bool
is_socks5 socks5 = true
is_socks5 _ = false

abbrev pub is_set {ℓ} : {A : Type ℓ} → Option A → Bool
is_set none = false
is_set (some a) = true

-- Between brackets, or the text itself.
abbrev pub last_or : Bytes → ℕ → ℕ
last_or bs d = get_or (drop (length bs - 1) bs) 0 d

unfoldable pub without_brackets : Bytes → Bytes
without_brackets host =
    if (eqb (get_or host 0 0) 91 && leb 2 (length host)) && eqb (last_or host 0) 93
    then take (length host - 2) (drop 1 host)
    else host

module _ (parse_ip : Bytes → Option IpAddr) where
  unfoldable pub endpoint_of : Address → Option SocketAddr
  endpoint_of (socket_address address) = some address
  endpoint_of (domain_address host port) = elim (parse_ip (without_brackets host)) [
    | none ↦ none
    | some ip ↦ some (record { ip = ip; port = port })
  ]

  unfoldable pub echo_endpoint : ProxyParameters → Option SocketAddr
  echo_endpoint proxy =
      if not (is_socks5 proxy.proxy_type) || is_set proxy.credentials
      then none
      else elim proxy.addr [
        | none ↦ none
        | some a ↦ elim (endpoint_of a) [
          | none ↦ none
          | some endpoint ↦ if is_loopback endpoint.ip then some endpoint else none
        ]
      ]

  unfoldable pub validate_options : Bool → ProxyParameters → Result IcmpError (Option SocketAddr)
  validate_options icmp_echo proxy = if not icmp_echo then ok none else elim (echo_endpoint proxy) [
    | none ↦ err needs_loopback
    | some endpoint ↦ ok (some endpoint)
  ]

  -- The request that `connect` writes; 4 or 6 stands for the family in place of a port.
  unfoldable pub connect_request : Bytes → Bool → Result IcmpError Bytes
  connect_request target ipv6 =
      let front = 5 ∷ 1 ∷ 0 ∷ 5 ∷ socks5_echo ∷ 0 ∷ [] in
      let family = be16_bytes (if ipv6 then 6 else 4) in
      elim (parse_ip target) [
        | some (v4 n) ↦ ok (front ++ (1 ∷ octets 4 n) ++ family)
        | some (v6 n) ↦ ok (front ++ (4 ∷ octets 16 n) ++ family)
        | none ↦
            if ltb 255 (length target)
            then err host_too_long
            else ok (front ++ (3 ∷ length target ∷ target) ++ family)
      ]

-- The twelve bytes that `connect` reads.
unfoldable pub is_accepted : Bytes → Bool
is_accepted reply = take 6 reply == (5 ∷ 0 ∷ 5 ∷ 0 ∷ 0 ∷ 1 ∷ [])
