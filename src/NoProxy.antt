-- ===== src/NoProxy.antt =====
-- no_proxy.rs: connections without a proxy, as the handler that passes everything on.
pub mod Session
use tun2proxy.Tunnel.{ProxyHandler, Queues, Moves, arrived}
use tun2proxy.Prelude.{
  refl, true, false, none, some, inl, inr, [], ◌∷◌, ok, ◌++◌, ◌≡◌, arith, Option, ℕ, length,
  if◌then◌else◌, drop, leb, Bool, sym, append-nil,
}
use tun2proxy.Proxy.{
  from_server, from_client, to_server, to_client, IncomingDirection, SocketAddr, SessionInfo,
  OutgoingDirection, Bytes,
}

pub record NoProxyHandler : Type 0 where
  pub info : SessionInfo
  pub domain_name : Option Bytes
  pub client_outbuf : Bytes
  pub server_outbuf : Bytes
  pub udp_associate : Bool

unfoldable pub new : SessionInfo → Option Bytes → Bool → NoProxyHandler
new info domain_name udp_associate = record {
  info = info;
  domain_name = domain_name;
  client_outbuf = [];
  server_outbuf = [];
  udp_associate = udp_associate;
}

unfoldable pub push_data : NoProxyHandler → IncomingDirection → Bytes → NoProxyHandler
push_data s from_server buffer = record s { client_outbuf = s.client_outbuf ++ buffer }
push_data s from_client buffer = record s { server_outbuf = s.server_outbuf ++ buffer }

-- `drain(0..size)` panics past the end, which is `none`.
unfoldable pub consume_data : NoProxyHandler → OutgoingDirection → ℕ → Option NoProxyHandler
consume_data s to_server size =
    if leb size (length s.server_outbuf)
    then some (record s { server_outbuf = drop size s.server_outbuf })
    else none
consume_data s to_client size =
    if leb size (length s.client_outbuf)
    then some (record s { client_outbuf = drop size s.client_outbuf })
    else none

unfoldable pub peek_data : NoProxyHandler → OutgoingDirection → Bytes
peek_data s to_server = s.server_outbuf
peek_data s to_client = s.client_outbuf

unfoldable pub data_len : NoProxyHandler → OutgoingDirection → ℕ
data_len s to_server = length s.server_outbuf
data_len s to_client = length s.client_outbuf

unfoldable pub get_server_addr : NoProxyHandler → SocketAddr
get_server_addr s = s.info.dst

unfoldable pub get_udp_associate : NoProxyHandler → Option SocketAddr
get_udp_associate s = if s.udp_associate then some s.info.dst else none

abbrev pub queues : NoProxyHandler → Queues
queues s = record {
  client_inbuf = [];
  server_inbuf = [];
  client_outbuf = s.client_outbuf;
  server_outbuf = s.server_outbuf;
}

pub push_data-Moves :
    (s : NoProxyHandler) (direction : IncomingDirection) (buffer : Bytes)
    → Moves (arrived direction (queues s) buffer) true (queues (push_data s direction buffer)) true
unfolding push_data
push_data-Moves s from_server buffer = inr (record {
  open_now = refl;
  reply = 0;
  reply_read = omega arith;
  no_reply = inr (refl, sym (append-nil s.server_outbuf));
  to_client_sent = refl;
  to_server_sent = (s.server_outbuf, sym (append-nil s.server_outbuf));
  client_read = refl;
  server_read_all = refl;
})
push_data-Moves s from_client buffer = inr (record {
  open_now = refl;
  reply = 0;
  reply_read = omega arith;
  no_reply = inr (refl, refl);
  to_client_sent = sym (append-nil s.client_outbuf);
  to_server_sent = (s.server_outbuf, refl);
  client_read = refl;
  server_read_all = refl;
})

pub consume_data-client :
    (s s' : NoProxyHandler) (size : ℕ)
    → consume_data s to_client size ≡ some s'
    → (queues s' ≡ record (queues s) { client_outbuf = drop size s.client_outbuf }) × (true ≡ true)
unfolding consume_data
consume_data-client s s' size h = ground arith

pub consume_data-server :
    (s s' : NoProxyHandler) (size : ℕ)
    → consume_data s to_server size ≡ some s'
    → (queues s' ≡ record (queues s) { server_outbuf = drop size s.server_outbuf }) × (true ≡ true)
unfolding consume_data
consume_data-server s s' size h = ground arith

pub consume_all :
    (s : NoProxyHandler)
    → (s' : NoProxyHandler) × (consume_data s to_client (length (peek_data s to_client)) ≡ some s')
unfolding consume_data peek_data
consume_all s =
    let all : leb (length s.client_outbuf) (length s.client_outbuf) ≡ true = ground arith in
    (record s { client_outbuf = drop (length s.client_outbuf) s.client_outbuf }, rw all refl)

pub peek_client : (s : NoProxyHandler) → peek_data s to_client ≡ s.client_outbuf
unfolding peek_data
peek_client s = refl

pub peek_server : (s : NoProxyHandler) → peek_data s to_server ≡ s.server_outbuf
unfolding peek_data
peek_server s = refl

abbrev pub handler : ProxyHandler
handler = record {
  State = NoProxyHandler;
  Failure = ⊥;
  queues = queues;
  connection_established = λ s. true;
  push_data = λ s d b. (push_data s d b, ok tt);
  consume_data = consume_data;
  peek_data = peek_data;
  Regular = λ s d b. Unit;
  push_data-Moves = λ s d b u. push_data-Moves s d b;
  peek_client = peek_client;
  peek_server = peek_server;
  consume_all = consume_all;
  consume_client = consume_data-client;
  consume_server = consume_data-server;
}
