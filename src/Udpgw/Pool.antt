-- ===== src/Udpgw/Pool.antt =====
-- udpgw.rs: the connections to the server that no session uses, and one round of the task that keeps
-- them alive. Sockets are a parameter, and a time is a number.
use tun2proxy.Udpgw.{
  AddressCodec, UdpGwResponse, keep_alive, error, tcp_close, data_of, build_keepalive_packet,
  write_to_buf,
}
use tun2proxy.Proxy.{SocketAddr}
use tun2proxy.Ip.{v4}
use tun2proxy.Prelude.{
  true, false, none, some, [], ◌∷◌, ◌+◌, ◌-◌, ◌%◌, ◌++◌, ℕ, Option, if◌then◌else◌, List, Bool, drop,
  ltb, length, not,
}

pub record UdpGwClientStream (R W : Type 0) : Type 0 where
  pub local_addr : SocketAddr
  pub writer : Option W
  pub reader : Option R
  pub closed : Bool
  pub last_activity : ℕ
  pub serial_number : ℕ

pub record UdpGwClient (R W : Type 0) : Type 0 where
  pub udp_mtu : ℕ
  pub max_connections : ℕ
  pub udp_timeout : ℕ
  pub keepalive_time : ℕ
  pub udpgw_server : SocketAddr
  pub server_connections : List (UdpGwClientStream R W)

-- What the world does in a round while a connection has its turn: when it is looked at, whether its
-- address can be read and the packet is written, what is received, and when the answer is there.
pub record Turn : Type 0 where
  pub looked_at : ℕ
  pub has_address : Bool
  pub is_written : Bool
  pub received : List (Option (ℕ × UdpGwResponse))
  pub answered_at : ℕ

module _ {R W : Type 0} where
  abbrev pub close : UdpGwClientStream R W → UdpGwClientStream R W
  close s = record s { closed = true }

  abbrev pub get_reader : UdpGwClientStream R W → UdpGwClientStream R W × Option R
  get_reader s = (record s { reader = none }, s.reader)

  abbrev pub get_writer : UdpGwClientStream R W → UdpGwClientStream R W × Option W
  get_writer s = (record s { writer = none }, s.writer)

  abbrev pub update_activity : ℕ → UdpGwClientStream R W → UdpGwClientStream R W
  update_activity now s = record s { last_activity = now }

  -- The counter `SERIAL_NUMBER` comes in and goes out.
  abbrev pub rotate_serial_number : ℕ → UdpGwClientStream R W → UdpGwClientStream R W × ℕ
  rotate_serial_number counter s = (record s { serial_number = counter }, (counter + 1) % 65536)

  unfoldable pub new_stream : ℕ → ℕ → Option SocketAddr → R → W → UdpGwClientStream R W × ℕ
  new_stream now counter local reader writer = (
    record {
      local_addr = elim local [ some a ↦ a | none ↦ record { ip = v4 0; port = 0 } ];
      writer = some writer;
      reader = some reader;
      closed = false;
      last_activity = now;
      serial_number = counter;
    },
    (counter + 1) % 65536,
  )

  unfoldable pub new_client : ℕ → ℕ → ℕ → ℕ → SocketAddr → UdpGwClient R W
  new_client udp_mtu max_connections keepalive_time udp_timeout udpgw_server = record {
    udp_mtu = udp_mtu;
    max_connections = max_connections;
    udp_timeout = udp_timeout;
    keepalive_time = keepalive_time;
    udpgw_server = udpgw_server;
    server_connections = [];
  }

  abbrev first : List (UdpGwClientStream R W) → Option (UdpGwClientStream R W)
  first [] = none
  first (s ∷ ss) = some s

  unfoldable pub pop_server_connection_from_queue :
      UdpGwClient R W → UdpGwClient R W × Option (UdpGwClientStream R W)
  pop_server_connection_from_queue c =
      (record c { server_connections = drop 1 c.server_connections }, first c.server_connections)

  unfoldable pub store_server_connection : UdpGwClient R W → UdpGwClientStream R W → UdpGwClient R W
  store_server_connection c stream =
      if ltb (length c.server_connections) c.max_connections
      then record c { server_connections = c.server_connections ++ (stream ∷ []) }
      else c

  unfoldable pub store_server_connection_full :
      UdpGwClient R W → UdpGwClientStream R W → R → W → UdpGwClient R W
  store_server_connection_full c stream reader writer =
      if ltb (length c.server_connections) c.max_connections
      then record c {
        server_connections =
            c.server_connections
            ++ (record stream { reader = some reader; writer = some writer } ∷ []);
      }
      else c

  -- The connections that are not closed, with all of them taken from the queue.
  unfoldable pub take_open : List (UdpGwClientStream R W) → List (UdpGwClientStream R W)
  take_open [] = []
  take_open (s ∷ ss) = let rest = take_open ss in if s.closed then rest else s ∷ rest

-- Waiting for the answer to a keepalive packet: whether it came, and how many bytes did. Late data and
-- errors of sessions are ignored. The end of the list is the time limit.
unfoldable pub await_keepalive : List (Option (ℕ × UdpGwResponse)) → Bool × ℕ
await_keepalive [] = (false, 0)
await_keepalive (none ∷ rs) = (false, 0)
await_keepalive (some (len, keep_alive) ∷ rs) = (true, len)
await_keepalive (some (len, tcp_close) ∷ rs) = (false, len)
await_keepalive (some (len, data_of p) ∷ rs) =
    let (came, rx) = await_keepalive rs in (came, len + rx)
await_keepalive (some (len, error) ∷ rs) = let (came, rx) = await_keepalive rs in (came, len + rx)

module _ (C : AddressCodec) {R W : Type 0} (turn : UdpGwClientStream R W → Turn) where
  abbrev Stream : Type 0
  Stream = UdpGwClientStream R W

  abbrev Client : Type 0
  Client = UdpGwClient R W

  -- A client with what was sent and received, or the error that ends the task.
  abbrev pub Traffic : Type 0
  Traffic = Client × Option (ℕ × ℕ)

  -- A connection whose two halves were taken out of it.
  unfoldable pub probe : Client → Stream → R → W → Traffic
  probe c s reader writer =
      let t = turn s in
      let tx = length (write_to_buf C (build_keepalive_packet s.serial_number)) in
      let (came, rx) = await_keepalive t.received in
      let taken = record s { reader = none; writer = none } in
      if not t.has_address
      then (c, none)
      else if not t.is_written
      then (c, some (tx, 0))
      else if came
      then (
        store_server_connection_full c (update_activity t.answered_at taken) reader writer,
        some (tx, rx),
      )
      else (c, some (tx, rx))

  unfoldable pub keep_stream : Client → Stream → Traffic
  keep_stream c s =
      if ltb ((turn s).looked_at - s.last_activity) c.keepalive_time
      then (store_server_connection c s, some (0, 0))
      else elim s.reader [
        | none ↦ (c, some (0, 0))
        | some reader ↦ elim s.writer [
          | none ↦ (c, some (0, 0))
          | some writer ↦ probe c s reader writer
        ]
      ]

  abbrev pub add_traffic : ℕ × ℕ → Option (ℕ × ℕ) → Option (ℕ × ℕ)
  add_traffic (tx, rx) none = none
  add_traffic (tx, rx) (some (tx', rx')) = some (tx + tx', rx + rx')

  unfoldable pub keep_streams : Client → List Stream → Traffic
  keep_streams c [] = (c, some (0, 0))
  keep_streams c (s ∷ ss) =
      let (c', traffic) = keep_stream c s in
      elim traffic [
        | none ↦ (c', none)
        | some t ↦ let (c2, more) = keep_streams c' ss in (c2, add_traffic t more)
      ]

  -- One round of the loop of `heartbeat_task`, between two sleeps.
  unfoldable pub heartbeat_round : Client → Traffic
  heartbeat_round c =
      keep_streams (record c { server_connections = [] }) (take_open c.server_connections)
