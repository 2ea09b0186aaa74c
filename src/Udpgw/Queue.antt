-- ===== src/Udpgw/Queue.antt =====
-- udpgw.rs: the limit of the queue of connections, whoever takes and stores them in whatever order.
use tun2proxy.Udpgw.Pool.{
  UdpGwClientStream, UdpGwClient, new_client, store_server_connection, store_server_connection_full,
  pop_server_connection_from_queue,
}
use tun2proxy.Proxy.{SocketAddr}
use tun2proxy.Prelude.{refl, some, [], ◌∷◌, ◌≡◌, ◌≤◌, arith, ℕ, length, length-append, length-drop}

module _ {R W : Type 0} where
  -- The calls of any number of tasks, one at a time, since each holds the lock.
  pub data Uses (first : UdpGwClient R W) : UdpGwClient R W → Type 0 where
    started : Uses first first
    popped :
        {c : UdpGwClient R W} → Uses first c → Uses first (pop_server_connection_from_queue c).0
    stored :
        {c : UdpGwClient R W} (s : UdpGwClientStream R W)
        → Uses first c
        → Uses first (store_server_connection c s)
    stored_full :
        {c : UdpGwClient R W} (s : UdpGwClientStream R W) (r : R) (w : W)
        → Uses first c
        → Uses first (store_server_connection_full c s r w)

  abbrev Limited : ℕ → UdpGwClient R W → Type 0
  Limited max c = (c.max_connections ≡ max) × (length c.server_connections ≤ max)

  pop-Limited :
      (max : ℕ) (c : UdpGwClient R W)
      → Limited max c
      → Limited max (pop_server_connection_from_queue c).0
  unfolding pop_server_connection_from_queue
  pop-Limited max c (e, l) = (e, omega (arith, l, length-drop 1 c.server_connections))

  store-Limited :
      (max : ℕ) (c : UdpGwClient R W) (s : UdpGwClientStream R W)
      → Limited max c
      → Limited max (store_server_connection c s)
  unfolding store_server_connection
  store-Limited max c s (e, l) = ground (arith, e, l, length-append c.server_connections (s ∷ []))

  store_full-Limited :
      (max : ℕ) (c : UdpGwClient R W) (s : UdpGwClientStream R W) (r : R) (w : W)
      → Limited max c
      → Limited max (store_server_connection_full c s r w)
  unfolding store_server_connection_full
  store_full-Limited max c s r w (e, l) = ground (
    arith,
    e,
    l,
    length-append c.server_connections (record s { reader = some r; writer = some w } ∷ []),
  )

  Uses-Limited :
      (max : ℕ) (first c : UdpGwClient R W) → Limited max first → Uses first c → Limited max c
  Uses-Limited max first c l started = l
  Uses-Limited max first c l (popped {c = c0} u) =
      pop-Limited max c0 (Uses-Limited max first c0 l u)
  Uses-Limited max first c l (stored {c = c0} s u) =
      store-Limited max c0 s (Uses-Limited max first c0 l u)
  Uses-Limited max first c l (stored_full {c = c0} s r w u) =
      store_full-Limited max c0 s r w (Uses-Limited max first c0 l u)

  -- In every order of calls on a new client the queue never holds more than `max_connections`.
  pub Uses-new_client :
      (udp_mtu max_connections keepalive_time udp_timeout : ℕ) (server : SocketAddr)
      (c : UdpGwClient R W)
      → Uses (new_client udp_mtu max_connections keepalive_time udp_timeout server) c
      → length c.server_connections ≤ max_connections
  unfolding new_client
  Uses-new_client udp_mtu max_connections keepalive_time udp_timeout server c u =
      (Uses-Limited max_connections
        (new_client udp_mtu max_connections keepalive_time udp_timeout server) c (refl, omega arith)
        u).1
