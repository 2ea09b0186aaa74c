-- ===== src/Socks/Relay.antt =====
-- socks.rs: which bytes a step of the client reads, holds back and passes on.
use tun2proxy.Maps.{is_none}
use tun2proxy.Proxy.{Bytes, SocketAddr, IncomingDirection}
use tun2proxy.Prelude.{
  true, false, some, inl, inr, [], ◌≡◌, ◌≤◌, refl, arith, ◌⊎◌, ℕ, Result, ok, drop, length, ◌∙◌,
  ◌++◌, sym, append-nil, Bool-cases, ltb, not, eqb, get_or, err, Option, ◌&&◌, ◌||◌, Option-cases,
}
use tun2proxy.Socks.{
  connect, bind_port, udp_associate, socks4, socks5, client_hello, server_hello, send_auth_data,
  receive_auth_response, send_request, receive_response, established, SocksProxyImpl, Outcome,
  connection_established, Protocol, receive_server_hello_socks4, Error, Bytes, state_change,
  dispatch, relay_traffic, is_established, unexpected_reply_code, receive_auth_data,
  receive_connection_status, receive_server_hello_socks5, choose_method, send_auth,
  send_request_socks5, malformed_message, associate, no_auth, is_none, user_pass,
  receive_server_hello, connection_failed, Command, SocksState, Address, Version, no_socket_address,
  push_data, receive,
}
use tun2proxy.Socks.Handshake.{Retrieved-cases}

-- The tunnel is not open: what the client sent waits, and the client is sent nothing. Of the
-- server's bytes at most a first part is read, and what was queued for the server stays first.
pub record Waits (s : SocksProxyImpl) (o : Outcome) : Type 0 where
  pub was_closed : connection_established s ≡ false
  pub closed : connection_established o.0 ≡ false
  pub client_waits : o.0.client_inbuf ≡ s.client_inbuf
  pub client_unsent : o.0.client_outbuf ≡ s.client_outbuf
  pub server_read :
      (n : ℕ) × (n ≤ length s.server_inbuf) × (o.0.server_inbuf ≡ drop n s.server_inbuf)
  pub server_sent : (bytes : Bytes) × (o.0.server_outbuf ≡ s.server_outbuf ++ bytes)

-- The tunnel is open: what the client sent is queued for the server, and all that the server sent
-- after the first `n` bytes, its last reply, for the client. Nothing stays behind.
pub record Relays (s : SocksProxyImpl) (o : Outcome) : Type 0 where
  pub open_now : connection_established o.0 ≡ true
  pub succeeded : o.1 ≡ ok tt
  pub reply : ℕ
  pub reply_read : reply ≤ length s.server_inbuf
  pub no_reply : (connection_established s ≡ false) ⊎ (reply ≡ 0)
  pub to_client_sent : o.0.client_outbuf ≡ s.client_outbuf ++ drop reply s.server_inbuf
  pub to_server_sent : o.0.server_outbuf ≡ s.server_outbuf ++ s.client_inbuf
  pub client_read : o.0.client_inbuf ≡ []
  pub server_read_all : o.0.server_inbuf ≡ []

abbrev Steps : SocksProxyImpl → Outcome → Type 0
Steps s o = Waits s o ⊎ Relays s o

-- A handler that sends nothing, and one that reads nothing.
pub reads :
    (s s' : SocksProxyImpl) (r : Result Error Unit) (n : ℕ)
    → n ≤ length s.server_inbuf
    → connection_established s ≡ false
    → connection_established s' ≡ false
    → s'.client_inbuf ≡ s.client_inbuf
    → s'.client_outbuf ≡ s.client_outbuf
    → s'.server_inbuf ≡ drop n s.server_inbuf
    → s'.server_outbuf ≡ s.server_outbuf
    → Steps s (s', r)
reads s s' r n h b c i u d q = inl (record {
  was_closed = b;
  closed = c;
  client_waits = i;
  client_unsent = u;
  server_read = (n, h, d);
  server_sent = ([], q ∙ sym (append-nil s.server_outbuf));
})

module _ (P : Protocol) where
  waits :
      (s : SocksProxyImpl) (r : Result Error Unit)
      → connection_established s ≡ false
      → Steps s (s, r)
  waits s r c = reads s s r 0 (omega arith) c c refl refl refl refl

  -- After a reply of `n` bytes the tunnel opens.
  opens :
      (s : SocksProxyImpl) (n : ℕ) (a : Option SocketAddr)
      → n ≤ length s.server_inbuf
      → connection_established s ≡ false
      → Steps s (
          relay_traffic P (record s {
            server_inbuf = drop n s.server_inbuf;
            udp_associate = a;
            state = established;
          }))
  unfolding relay_traffic connection_established is_established
  opens s n a h b = inr (record {
    open_now = refl;
    succeeded = refl;
    reply = n;
    reply_read = h;
    no_reply = inl b;
    to_client_sent = refl;
    to_server_sent = refl;
    client_read = refl;
    server_read_all = refl;
  })

  module _ (s : SocksProxyImpl) (closed_now : connection_established s ≡ false) where
    asks_password :
        (n : ℕ)
        → n ≤ length s.server_inbuf
        → Steps s (
            send_auth P (record s { server_inbuf = drop n s.server_inbuf; state = send_auth_data }))
    unfolding send_auth connection_established is_established
    asks_password n h = inl (record {
      was_closed = closed_now;
      closed = refl;
      client_waits = refl;
      client_unsent = refl;
      server_read = (n, h, refl);
      server_sent = (_, refl);
    })

    asks_request :
        (n : ℕ)
        → n ≤ length s.server_inbuf
        → Steps s (
            send_request_socks5 P
              (record s { server_inbuf = drop n s.server_inbuf; state = send_request }))
    unfolding send_request_socks5 connection_established is_established
    asks_request n h = inl (record {
      was_closed = closed_now;
      closed = refl;
      client_waits = refl;
      client_unsent = refl;
      server_read = (n, h, refl);
      server_sent = (_, refl);
    })

    hello4-Steps : Steps s (receive_server_hello_socks4 P (state_change P 1) s)
    unfolding receive_server_hello_socks4 state_change dispatch
    hello4-Steps = elim (Bool-cases (ltb (length s.server_inbuf) 8)) [
      | inl few ↦ rw few (waits s (ok tt) closed_now)
      | inr enough ↦ elim (Bool-cases (not (eqb (get_or s.server_inbuf 1 0) 0x5a))) [
        | inl other ↦ rw (enough, other) (waits s (err unexpected_reply_code) closed_now)
        | inr granted ↦ rw (enough, granted) (opens s 8 s.udp_associate (ground arith) closed_now)
      ]
    ]

    choose-Steps :
        (m n : ℕ)
        → n ≤ length s.server_inbuf
        → Steps s (
            choose_method P
              (state_change P 1)
              (record s { server_inbuf = drop n s.server_inbuf })
              m)
    unfolding choose_method state_change dispatch send_auth send_request_socks5
        connection_established is_established
    choose-Steps m n h =
        elim (Bool-cases (
          (not (eqb m no_auth) && is_none s.credentials)
          || ((not (eqb m no_auth) && not (eqb m user_pass)) && not (is_none s.credentials)))) [
            | inl refused ↦ rw refused (reads s _ _ n h closed_now closed_now refl refl refl refl)
            | inr taken ↦ elim (Bool-cases (eqb m user_pass)) [
              | inl password ↦ rw (taken, password) (asks_password n h)
              | inr no_password ↦ rw (taken, no_password) (asks_request n h)
            ]
          ]

    hello5-Steps : Steps s (receive_server_hello_socks5 P (state_change P 1) s)
    unfolding receive_server_hello_socks5
    hello5-Steps = elim (Retrieved-cases (P.handshake_response s.server_inbuf)) [
      | inl e ↦ rw (e, receive_server_hello_socks5) (waits s (ok tt) closed_now)
      | inr (inl e) ↦
          rw (e, receive_server_hello_socks5) (waits s (err malformed_message) closed_now)
      | inr (inr (m, n, e)) ↦
          rw (e, receive_server_hello_socks5)
            (choose-Steps m n (P.handshake_response-length s.server_inbuf m n e))
    ]

    auth-Steps : Steps s (receive_auth_data P (state_change P 1) s)
    unfolding receive_auth_data state_change dispatch send_request_socks5 connection_established
        is_established
    auth-Steps = elim (Retrieved-cases (P.password_response s.server_inbuf)) [
      | inl e ↦ rw (e, receive_auth_data) (waits s (ok tt) closed_now)
      | inr (inl e) ↦ rw (e, receive_auth_data) (waits s (err malformed_message) closed_now)
      | inr (inr (false, n, e)) ↦
          rw (e, receive_auth_data)
            (reads s _ _ n (P.password_response-length s.server_inbuf false n e) closed_now
              closed_now refl refl refl refl)
      | inr (inr (true, n, e)) ↦
          rw (e, receive_auth_data)
            (asks_request n (P.password_response-length s.server_inbuf true n e))
    ]

    associate-Steps :
        (c : Command) (a : Address) (n : ℕ)
        → n ≤ length s.server_inbuf
        → Steps s
            (associate P (state_change P 1) (record s { server_inbuf = drop n s.server_inbuf }) c a)
    unfolding associate state_change dispatch connection_established is_established
    associate-Steps connect a n h = opens s n s.udp_associate h closed_now
    associate-Steps bind_port a n h = opens s n s.udp_associate h closed_now
    associate-Steps udp_associate a n h = elim (Option-cases (P.try_socket_addr a)) [
      | inl e ↦
          rw (e, associate)
            (reads s (record s { server_inbuf = drop n s.server_inbuf }) (err no_socket_address) n h
              closed_now closed_now refl refl refl refl)
      | inr (addr, e) ↦ rw (e, associate) (opens s n (some addr) h closed_now)
    ]

    status-Steps : Steps s (receive_connection_status P (state_change P 1) s)
    unfolding receive_connection_status associate state_change dispatch connection_established
        is_established
    status-Steps = elim (Retrieved-cases (P.response s.server_inbuf)) [
      | inl e ↦ rw (e, receive_connection_status) (waits s (ok tt) closed_now)
      | inr (inl e) ↦ rw (e, receive_connection_status) (waits s (err malformed_message) closed_now)
      | inr (inr ((false, a), n, e)) ↦
          rw (e, receive_connection_status)
            (reads s (record s { server_inbuf = drop n s.server_inbuf }) (err connection_failed) n
              (P.response-length s.server_inbuf (false, a) n e) closed_now closed_now refl refl refl
              refl)
      | inr (inr ((true, a), n, e)) ↦
          rw (e, receive_connection_status)
            (associate-Steps s.command a n (P.response-length s.server_inbuf (true, a) n e))
    ]

    hello-Steps : (v : Version) → Steps s (receive_server_hello P (state_change P 1) v s)
    unfolding receive_server_hello
    hello-Steps socks4 = hello4-Steps
    hello-Steps socks5 = hello5-Steps

  dispatch-Steps :
      (s : SocksProxyImpl) (st : SocksState)
      → s.state ≡ st
      → Steps s (dispatch P (state_change P 1) st s)
  unfolding dispatch send_auth send_request_socks5 relay_traffic connection_established
      is_established
  dispatch-Steps s client_hello e = waits s (ok tt) (rw e refl)
  dispatch-Steps s server_hello e = hello-Steps s (rw e refl) s.version
  dispatch-Steps s send_auth_data e = inl (record {
    was_closed = rw e refl;
    closed = refl;
    client_waits = refl;
    client_unsent = refl;
    server_read = (0, omega arith, refl);
    server_sent = (_, refl);
  })
  dispatch-Steps s receive_auth_response e = auth-Steps s (rw e refl)
  dispatch-Steps s send_request e = inl (record {
    was_closed = rw e refl;
    closed = refl;
    client_waits = refl;
    client_unsent = refl;
    server_read = (0, omega arith, refl);
    server_sent = (_, refl);
  })
  dispatch-Steps s receive_response e = status-Steps s (rw e refl)
  dispatch-Steps s established e = inr (record {
    open_now = rw e refl;
    succeeded = refl;
    reply = 0;
    reply_read = omega arith;
    no_reply = inr refl;
    to_client_sent = refl;
    to_server_sent = refl;
    client_read = refl;
    server_read_all = refl;
  })

  -- In every state and for all bytes a step either leaves the tunnel closed, with the client's bytes
  -- waiting and nothing sent to the client, or leaves it open, with all of the client's bytes queued
  -- for the server and all of the server's bytes after the last reply queued for the client, each
  -- after what was queued before.
  pub push_data_steps :
      (s : SocksProxyImpl) (direction : IncomingDirection) (buffer : Bytes)
      → Waits (receive P direction s buffer) (push_data P s direction buffer)
        ⊎ Relays (receive P direction s buffer) (push_data P s direction buffer)
  unfolding push_data state_change
  push_data_steps s direction buffer =
      dispatch-Steps (receive P direction s buffer) (receive P direction s buffer).state refl
