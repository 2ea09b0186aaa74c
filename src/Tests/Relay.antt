-- ===== src/Tests/Relay.antt =====
-- Inputs for the theorems about socks.rs: a server's messages in their shortest forms.
use tun2proxy.Socks.Handshake.{state_change-fuel}
use tun2proxy.Socks.Order.{Advances, push_data-Advances}
use tun2proxy.Socks.Talk.{Told}
use tun2proxy.Socks.Session.{Run-streams}
use tun2proxy.Socks.Handler.{handler}
use tun2proxy.Tunnel.Session.{Run, opened, server_pushed}
use tun2proxy.Prelude.{◌≡◌, refl, arith, [], ◌∷◌, none, some, ◌≤◌, Bool, ◌++◌, ℕ, eqb, length, ok}
use tun2proxy.Proxy.{from_server, tcp, SocketAddr, Bytes}
use tun2proxy.Ip.{v4}
use tun2proxy.Socks.{
  socks5, connect, server_hello, socket_address, unexpected_eof, retrieved, established, Protocol,
  push_data, SocksProxyImpl, state_change, receive, Retrieved, dispatch, Address, relay_traffic,
  receive_server_hello, receive_server_hello_socks4, receive_server_hello_socks5, receive_auth_data,
  receive_connection_status, send_auth, send_request_socks5, send_client_hello,
  send_client_hello_socks4, send_client_hello_socks5, new, consume_data, peek_data, data_len,
  connection_established, user_name,
}

abbrev pub here : SocketAddr
here = record { ip = v4 2130706433; port = 1080 }

-- The answers that the wire format gives to two or three bytes.
abbrev method_of : Bytes → Retrieved ℕ
method_of (v ∷ m ∷ bs) = retrieved m 2
method_of _ = unexpected_eof

abbrev status_of : Bytes → Retrieved Bool
status_of (v ∷ s ∷ bs) = retrieved (eqb s 0) 2
status_of _ = unexpected_eof

abbrev reply_of : Bytes → Retrieved (Bool × Address)
reply_of (v ∷ r ∷ a ∷ bs) = retrieved (eqb r 0, socket_address here) 3
reply_of _ = unexpected_eof

pub method_of-length : (bs : Bytes) (m n : ℕ) → method_of bs ≡ retrieved m n → n ≤ length bs
method_of-length (v ∷ k ∷ bs) m n h = grind (arith, h)
method_of-length (v ∷ []) m n h = cc
method_of-length [] m n h = cc

pub status_of-length :
    (bs : Bytes) (b : Bool) (n : ℕ) → status_of bs ≡ retrieved b n → n ≤ length bs
status_of-length (v ∷ k ∷ bs) b n h = grind (arith, h)
status_of-length (v ∷ []) b n h = cc
status_of-length [] b n h = cc

pub reply_of-length :
    (bs : Bytes) (r : Bool × Address) (n : ℕ) → reply_of bs ≡ retrieved r n → n ≤ length bs
reply_of-length (v ∷ k ∷ a ∷ bs) r n h = grind (arith, h)
reply_of-length (v ∷ k ∷ []) r n h = cc
reply_of-length (v ∷ []) r n h = cc
reply_of-length [] r n h = cc

abbrev pub protocol : Protocol
protocol = record {
  handshake_request = λ ms. 5 ∷ ms;
  handshake_response = method_of;
  password_request = λ u p. 1 ∷ u ++ p;
  password_response = status_of;
  request = λ c a. 5 ∷ [];
  response = reply_of;
  try_socket_addr = λ a. some here;
  ip_text = λ a. [];
  number_text = λ n. n ∷ [];
  handshake_response-length = method_of-length;
  password_response-length = status_of-length;
  response-length = reply_of-length;
}

abbrev socks_program : Unit {0}
unfolding push_data state_change dispatch receive relay_traffic receive_server_hello
    receive_server_hello_socks4 receive_server_hello_socks5 receive_auth_data
    receive_connection_status send_auth send_request_socks5 send_client_hello
    send_client_hello_socks4 send_client_hello_socks5 new consume_data peek_data data_len
    connection_established user_name
socks_program = tt

abbrev pub waiting_client : SocksProxyImpl
waiting_client = record {
  server_addr = here;
  info = record { src = here; dst = here; protocol = tcp };
  domain_name = none;
  state = server_hello;
  client_inbuf = 7 ∷ [];
  server_inbuf = [];
  client_outbuf = [];
  server_outbuf = [];
  version = socks5;
  credentials = none;
  command = connect;
  udp_associate = none;
}

state_change-fuel_example :
    state_change protocol 7 waiting_client
    ≡ dispatch protocol
        (λ s. dispatch protocol (λ s'. (waiting_client, ok tt)) s.state s)
        server_hello
        waiting_client
state_change-fuel_example =
    state_change-fuel protocol (λ s'. (waiting_client, ok tt)) 5 waiting_client

push_data-Advances_example :
    Advances protocol
      (receive protocol from_server waiting_client (5 ∷ 0 ∷ []))
      server_hello
      (push_data protocol waiting_client from_server (5 ∷ 0 ∷ []))
push_data-Advances_example = push_data-Advances protocol waiting_client from_server (5 ∷ 0 ∷ []) tt

-- A SOCKS5 connection: the method, then the reply with two bytes of data behind it.
abbrev pub opened_client : SocksProxyImpl
opened_client = record waiting_client { client_inbuf = []; server_outbuf = 5 ∷ 0 ∷ 4 ∷ 100 ∷ [] }

abbrev SocksRun : SocksProxyImpl → Bytes → Bytes → Bytes → Bytes → Type 0
SocksRun = Run (handler protocol) opened_client

asked-Run :
    SocksRun (push_data protocol opened_client from_server (5 ∷ 0 ∷ [])).0 [] (5 ∷ 0 ∷ []) [] []
asked-Run = server_pushed (5 ∷ 0 ∷ []) tt opened

abbrev asked_client : SocksProxyImpl
asked_client = (push_data protocol opened_client from_server (5 ∷ 0 ∷ [])).0

abbrev tunnel_client : SocksProxyImpl
tunnel_client = (push_data protocol asked_client from_server (5 ∷ 0 ∷ 1 ∷ 8 ∷ 9 ∷ [])).0

tunnel_opens : (tunnel_client.state ≡ established) × (tunnel_client.client_outbuf ≡ 8 ∷ 9 ∷ [])
unfolding socks_program
tunnel_opens = (refl, refl)

made :
    new protocol here (record { src = here; dst = here; protocol = tcp }) none none socks5 connect
    ≡ ok opened_client
unfolding socks_program
made = refl

Run-streams_example :
    Told protocol opened_client tunnel_client [] (5 ∷ 0 ∷ 5 ∷ 0 ∷ 1 ∷ 8 ∷ 9 ∷ []) [] []
Run-streams_example =
    Run-streams protocol here (record { src = here; dst = here; protocol = tcp }) none none socks5
      connect opened_client tunnel_client [] (5 ∷ 0 ∷ 5 ∷ 0 ∷ 1 ∷ 8 ∷ 9 ∷ []) [] [] made
      (server_pushed (5 ∷ 0 ∷ 1 ∷ 8 ∷ 9 ∷ []) tt asked-Run)
