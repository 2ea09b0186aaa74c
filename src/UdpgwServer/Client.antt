-- ===== src/UdpgwServer/Client.antt =====
-- bin/udpgw_server.rs: the wait for a client's packet, and the addresses of the log.
use tun2proxy.UdpgwServer.{client_disconnect_timeout}
use tun2proxy.Udpgw.{Packet, UdpgwError, timed_out}
use tun2proxy.Ip.{IpAddr, v4, v6}
use tun2proxy.Proxy.{Bytes, SocketAddr}
use tun2proxy.Prelude.{
  none, some, [], ◌∷◌, err, ◌+◌, ◌-◌, ◌++◌, ◌||◌, ℕ, Bool, List, eqb, leb, length, if◌then◌else◌,
  Option, Result,
}

-- What ends one turn of the wait: the read, or two seconds, at a time and with the client's last
-- activity then.
pub data Wake : Type 0 where
  packet_read : Result UdpgwError (Packet × Bytes) → Wake
  two_seconds : ℕ → ℕ → Wake

-- Nothing when it still waits.
unfoldable pub retrieve_packet_or_disconnect :
    List Wake → Option (Result UdpgwError (Packet × Bytes))
retrieve_packet_or_disconnect [] = none
retrieve_packet_or_disconnect (packet_read result ∷ wakes) = some result
retrieve_packet_or_disconnect (two_seconds now last_activity ∷ wakes) =
    let rest = retrieve_packet_or_disconnect wakes in
    if leb client_disconnect_timeout (now - last_activity) then some (err timed_out) else rest

abbrev pub is_separator : ℕ → Bool
is_separator c = eqb c 46 || eqb c 58

-- The characters from position `i` on of a text of `n` characters.
unfoldable pub mask_from : ℕ → ℕ → Bytes → Bytes
mask_from n i [] = []
mask_from n i (c ∷ cs) =
    (if (eqb i 0 || eqb i (n - 1)) || is_separator c then c else 42) ∷ mask_from n (i + 1) cs

-- Addresses are printed in ASCII, a byte for each character.
unfoldable pub mask_ip : Bytes → Bytes
mask_ip ip = if leb (length ip) 2 then ip else mask_from (length ip) 0 ip

-- `ip_text` and `number_text` print an address and a port.
unfoldable pub mask_socket_addr : (IpAddr → Bytes) → (ℕ → Bytes) → SocketAddr → Bytes
mask_socket_addr ip_text number_text addr = elim addr.ip [
  | v4 a ↦ mask_ip (ip_text addr.ip) ++ (58 ∷ number_text addr.port)
  | v6 a ↦ (91 ∷ mask_ip (ip_text addr.ip)) ++ (93 ∷ 58 ∷ number_text addr.port)
]
