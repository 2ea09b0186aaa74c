-- ===== src/Socks/Handler.antt =====
-- socks.rs: the trait `ProxyHandler` for a SOCKS connection.
use tun2proxy.Socks.Relay.{Waits, Relays, push_data_steps}
use tun2proxy.Tunnel.{Queues, ProxyHandler, Moves, arrived}
use tun2proxy.Socks.{
  SocksProxyImpl, Protocol, consume_data, peek_data, Outcome, connection_established, receive,
  Error, push_data,
}
use tun2proxy.Prelude.{refl, some, inl, inr, ◌≡◌, arith, ℕ, drop, ◌⊎◌, length, leb, true}
use tun2proxy.Proxy.{from_server, from_client, to_server, to_client, IncomingDirection, Bytes}

abbrev pub queues : SocksProxyImpl → Queues
queues s = record {
  client_inbuf = s.client_inbuf;
  server_inbuf = s.server_inbuf;
  client_outbuf = s.client_outbuf;
  server_outbuf = s.server_outbuf;
}

Steps-Moves :
    (s : SocksProxyImpl) (o : Outcome)
    → Waits s o ⊎ Relays s o
    → Moves (queues s) (connection_established s) (queues o.0) (connection_established o.0)
Steps-Moves s o (inl w) = inl (record {
  was_closed = w.was_closed;
  closed = w.closed;
  client_waits = w.client_waits;
  client_unsent = w.client_unsent;
  server_read = w.server_read;
})
Steps-Moves s o (inr r) = inr (record {
  open_now = r.open_now;
  reply = r.reply;
  reply_read = r.reply_read;
  no_reply = elim r.no_reply [ inl c ↦ inl c | inr z ↦ inr (z, r.to_server_sent) ];
  to_client_sent = r.to_client_sent;
  to_server_sent = (s.server_outbuf, r.to_server_sent);
  client_read = r.client_read;
  server_read_all = r.server_read_all;
})

pub consume_data-client :
    (s s' : SocksProxyImpl) (size : ℕ)
    → consume_data s to_client size ≡ some s'
    → (queues s' ≡ record (queues s) { client_outbuf = drop size s.client_outbuf })
      × (connection_established s' ≡ connection_established s)
unfolding consume_data connection_established
consume_data-client s s' size h = ground arith

pub consume_data-server :
    (s s' : SocksProxyImpl) (size : ℕ)
    → consume_data s to_server size ≡ some s'
    → (queues s' ≡ record (queues s) { server_outbuf = drop size s.server_outbuf })
      × (connection_established s' ≡ connection_established s)
unfolding consume_data connection_established
consume_data-server s s' size h = ground arith

pub consume_all :
    (s : SocksProxyImpl)
    → (s' : SocksProxyImpl) × (consume_data s to_client (length (peek_data s to_client)) ≡ some s')
unfolding consume_data peek_data
consume_all s =
    let all : leb (length s.client_outbuf) (length s.client_outbuf) ≡ true = ground arith in
    (record s { client_outbuf = drop (length s.client_outbuf) s.client_outbuf }, rw all refl)

pub peek_client : (s : SocksProxyImpl) → peek_data s to_client ≡ s.client_outbuf
unfolding peek_data
peek_client s = refl

pub peek_server : (s : SocksProxyImpl) → peek_data s to_server ≡ s.server_outbuf
unfolding peek_data
peek_server s = refl

module _ (P : Protocol) where
  -- A step on what has arrived is one of the contract's.
  pub push_data-Moves :
      (s : SocksProxyImpl) (direction : IncomingDirection) (buffer : Bytes)
      → Moves
          (arrived direction (queues s) buffer)
          (connection_established s)
          (queues (push_data P s direction buffer).0)
          (connection_established (push_data P s direction buffer).0)
  unfolding receive connection_established
  push_data-Moves s from_server buffer =
      Steps-Moves (receive P from_server s buffer) (push_data P s from_server buffer)
        (push_data_steps P s from_server buffer)
  push_data-Moves s from_client buffer =
      Steps-Moves (receive P from_client s buffer) (push_data P s from_client buffer)
        (push_data_steps P s from_client buffer)

  abbrev pub handler : ProxyHandler
  handler = record {
    State = SocksProxyImpl;
    Failure = Error;
    queues = queues;
    connection_established = connection_established;
    push_data = push_data P;
    consume_data = consume_data;
    peek_data = peek_data;
    Regular = λ s d b. Unit;
    push_data-Moves = λ s d b u. push_data-Moves s d b;
    peek_client = peek_client;
    peek_server = peek_server;
    consume_all = consume_all;
    consume_client = consume_data-client;
    consume_server = consume_data-server;
  }
