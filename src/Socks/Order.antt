-- ===== src/Socks/Order.antt =====
-- socks.rs: the order of the handshake, as the state transitions that the server's replies allow.
use tun2proxy.Maps.{is_none}
use tun2proxy.Proxy.{from_server, from_client, UserKey, IncomingDirection, Bytes}
use tun2proxy.Prelude.{
  [], ◌++◌, ok, err, Result, sym, subst, append-nil, true, false, none, some, inl, inr, ◌≡◌, ◌≤◌,
  refl, arith, Option, Bool-cases, ltb, ℕ, length, drop, Option-cases, not, get_or, ◌≢◌, eqb, ◌&&◌,
  ◌||◌, Bool, ◌∙◌, ap,
}
use tun2proxy.Socks.{
  is_established, Error, user_name, target, credentials_or_default, unexpected_reply_code,
  unsupported_auth_method, malformed_message, auth_failed, no_socket_address, connection_failed,
  SocketAddr, connect, bind_port, udp_associate, socks4, socks5, client_hello, server_hello,
  send_auth_data, receive_auth_response, send_request, receive_response, established, retrieved,
  Protocol, SocksProxyImpl, receive_connection_status, receive_server_hello_socks4,
  receive_server_hello, push_data, receive_auth_data, Version, associate, choose_method, SocksState,
  dispatch, receive_server_hello_socks5, relay_traffic, Outcome, state_change, UserKey,
  send_request_socks5, receive, send_auth, Command, Address, user_pass, no_auth, is_none,
}
use tun2proxy.Socks.Handshake.{Retrieved-cases}

-- The test of the client on the method that the server chose.
abbrev pub refuses : ℕ → Option UserKey → Bool
refuses m c =
    (not (eqb m no_auth) && is_none c)
    || ((not (eqb m no_auth) && not (eqb m user_pass)) && not (is_none c))

password_taken :
    (m : ℕ) (c : Option UserKey) → refuses m c ≡ false → eqb m user_pass ≡ true → c ≢ none
password_taken m none h e = ground arith
password_taken m (some c) h e = λ x. grind (arith, x)

nothing_taken :
    (m : ℕ) (c : Option UserKey) → refuses m c ≡ false → eqb m user_pass ≡ false → m ≡ no_auth
nothing_taken m none h e = ground arith
nothing_taken m (some c) h e = ground arith

module _ (P : Protocol) where
  -- What is read with an error: no message, or one that refuses.
  pub data Refused (s : SocksProxyImpl) : SocksState → ℕ → Type 0 where
    nothing : {st : SocksState} → Refused s st 0
    method :
        {m n : ℕ}
        → P.handshake_response s.server_inbuf ≡ retrieved m n
        → refuses m s.credentials ≡ true
        → Refused s server_hello n
    password :
        {n : ℕ}
        → P.password_response s.server_inbuf ≡ retrieved false n
        → Refused s receive_auth_response n
    connection :
        {n : ℕ} {a : Address}
        → P.response s.server_inbuf ≡ retrieved (false, a) n
        → Refused s receive_response n
    association :
        {n : ℕ} {a : Address}
        → P.response s.server_inbuf ≡ retrieved (true, a) n
        → P.try_socket_addr a ≡ none
        → Refused s receive_response n

  -- What a step from a state to a state reads of the server's bytes, what it says in the handshake and
  -- what it returns, where the client waits for the server: the messages have the lengths and the
  -- contents of the protocol.
  pub data Next (s : SocksProxyImpl)
      : SocksState → SocksState → ℕ → Bytes → Result Error Unit → Type 0 where
    waits : {st : SocksState} → is_established st ≡ false → Next s st st 0 [] (ok tt)
    fails :
        {st : SocksState} {n : ℕ} {e : Error}
        → is_established st ≡ false
        → Refused s st n
        → Next s st st n [] (err e)
    relays : Next s established established 0 [] (ok tt)
    granted :
        s.version ≡ socks4
        → 8 ≤ length s.server_inbuf
        → get_or s.server_inbuf 1 0 ≡ 0x5a
        → Next s server_hello established 8 [] (ok tt)
    asks_password :
        {n : ℕ}
        → s.version ≡ socks5
        → s.credentials ≢ none
        → P.handshake_response s.server_inbuf ≡ retrieved user_pass n
        → Next s server_hello receive_auth_response n
            (P.password_request (user_name P s) (credentials_or_default s.credentials).password)
            (ok tt)
    asks_nothing :
        {n : ℕ}
        → s.version ≡ socks5
        → P.handshake_response s.server_inbuf ≡ retrieved no_auth n
        → Next s server_hello receive_response n
            (P.request s.command (target P s.command s.domain_name s.info.dst))
            (ok tt)
    authenticated :
        {n : ℕ}
        → P.password_response s.server_inbuf ≡ retrieved true n
        → Next s receive_auth_response receive_response n
            (P.request s.command (target P s.command s.domain_name s.info.dst))
            (ok tt)
    accepted :
        {n : ℕ} {a : Address}
        → P.response s.server_inbuf ≡ retrieved (true, a) n
        → Next s receive_response established n [] (ok tt)

  -- Where the bytes are after a step that read `n` of the server's and said a message: in an open
  -- tunnel all others are the client's, and the client's the server's; in a closed one they wait.
  abbrev pub Moved : SocksState → SocksProxyImpl → SocksProxyImpl → ℕ → Bytes → Type 0
  Moved established s s' n message =
      (s'.client_outbuf ≡ s.client_outbuf ++ drop n s.server_inbuf)
      × (s'.server_outbuf ≡ s.server_outbuf ++ s.client_inbuf)
      × (s'.server_inbuf ≡ [])
      × (s'.client_inbuf ≡ [])
  Moved _ s s' n message =
      (s'.client_outbuf ≡ s.client_outbuf)
      × (s'.server_outbuf ≡ s.server_outbuf ++ message)
      × (s'.server_inbuf ≡ drop n s.server_inbuf)
      × (s'.client_inbuf ≡ s.client_inbuf)

  -- What the client was made for, and what it tells the server.
  abbrev pub SameRequest : SocksProxyImpl → SocksProxyImpl → Type 0
  SameRequest s s' =
      (s'.version ≡ s.version)
      × (s'.credentials ≡ s.credentials)
      × (s'.info ≡ s.info)
      × (s'.command ≡ s.command)
      × (s'.domain_name ≡ s.domain_name)

  -- A step from the state `st`, which leaves the request alone.
  pub record Advances (s : SocksProxyImpl) (st : SocksState) (o : Outcome) : Type 0 where
    pub read : ℕ
    pub message : Bytes
    pub next : Next s st o.0.state read message o.1
    pub moved : Moved o.0.state s o.0 read message
    pub same : SameRequest s o.0

  Moved-closed :
      (st : SocksState) (s : SocksProxyImpl) (n : ℕ)
      → is_established st ≡ false
      → Moved st s (record s { server_inbuf = drop n s.server_inbuf }) n []
  unfolding is_established
  Moved-closed client_hello s n e = (refl, sym (append-nil s.server_outbuf), refl, refl)
  Moved-closed server_hello s n e = (refl, sym (append-nil s.server_outbuf), refl, refl)
  Moved-closed send_auth_data s n e = (refl, sym (append-nil s.server_outbuf), refl, refl)
  Moved-closed receive_auth_response s n e = (refl, sym (append-nil s.server_outbuf), refl, refl)
  Moved-closed send_request s n e = (refl, sym (append-nil s.server_outbuf), refl, refl)
  Moved-closed receive_response s n e = (refl, sym (append-nil s.server_outbuf), refl, refl)
  Moved-closed established s n e = cc

  -- A step that stays where it is.
  stays :
      (s : SocksProxyImpl) (st : SocksState) (n : ℕ) (r : Result Error Unit)
      → is_established st ≡ false
      → s.state ≡ st
      → Next s st st n [] r
      → Advances s st (record s { server_inbuf = drop n s.server_inbuf }, r)
  stays s st n r closed h next = record {
    read = n;
    message = [];
    next = subst (λ k. Next s st k n [] r) (sym h) next;
    moved =
        subst (λ k. Moved k s (record s { server_inbuf = drop n s.server_inbuf }) n []) (sym h)
          (Moved-closed st s n closed);
    same = (refl, refl, refl, refl, refl);
  }

  waiting :
      (s : SocksProxyImpl) (st : SocksState)
      → is_established st ≡ false
      → s.state ≡ st
      → Advances s st (s, ok tt)
  waiting s st closed h = stays s st 0 (ok tt) closed h (waits closed)

  failing :
      (s : SocksProxyImpl) (st : SocksState) (n : ℕ) (e : Error)
      → is_established st ≡ false
      → s.state ≡ st
      → Refused s st n
      → Advances s st (record s { server_inbuf = drop n s.server_inbuf }, err e)
  failing s st n e closed h refused = stays s st n (err e) closed h (fails closed refused)

  -- A step after which the tunnel is open.
  opens :
      (s : SocksProxyImpl) (st : SocksState) (n : ℕ) (a : Option SocketAddr)
      → Next s st established n [] (ok tt)
      → Advances s st (
          relay_traffic P (record s {
            server_inbuf = drop n s.server_inbuf;
            udp_associate = a;
            state = established;
          }))
  unfolding relay_traffic
  opens s st n a next = record {
    read = n;
    message = [];
    next = next;
    moved = (refl, refl, refl, refl);
    same = (refl, refl, refl, refl, refl);
  }

  requests :
      (s : SocksProxyImpl) (st : SocksState) (n : ℕ)
      → Next s st receive_response n
          (P.request s.command (target P s.command s.domain_name s.info.dst))
          (ok tt)
      → Advances s st (
          send_request_socks5 P
            (record s { server_inbuf = drop n s.server_inbuf; state = send_request }))
  unfolding send_request_socks5
  requests s st n next = record {
    read = n;
    message = P.request s.command (target P s.command s.domain_name s.info.dst);
    next = next;
    moved = (refl, refl, refl, refl);
    same = (refl, refl, refl, refl, refl);
  }

  authenticates :
      (s : SocksProxyImpl) (n : ℕ)
      → Next s server_hello receive_auth_response n
          (P.password_request (user_name P s) (credentials_or_default s.credentials).password)
          (ok tt)
      → Advances s server_hello
          (send_auth P (record s { server_inbuf = drop n s.server_inbuf; state = send_auth_data }))
  unfolding send_auth user_name
  authenticates s n next = record {
    read = n;
    message = P.password_request (user_name P s) (credentials_or_default s.credentials).password;
    next = next;
    moved = (refl, refl, refl, refl);
    same = (refl, refl, refl, refl, refl);
  }

  abbrev pub IsResting : SocksState → Type 0
  IsResting client_hello = ⊥
  IsResting send_auth_data = ⊥
  IsResting send_request = ⊥
  IsResting _ = Unit

  hello4-Advances :
      (s : SocksProxyImpl)
      → s.version ≡ socks4
      → s.state ≡ server_hello
      → Advances s server_hello (receive_server_hello_socks4 P (state_change P 1) s)
  unfolding receive_server_hello_socks4 state_change dispatch is_established
  hello4-Advances s v h = elim (Bool-cases (ltb (length s.server_inbuf) 8)) [
    | inl few ↦ rw few (waiting s server_hello refl h)
    | inr enough ↦ elim (Bool-cases (not (eqb (get_or s.server_inbuf 1 0) 0x5a))) [
      | inl other ↦
          rw (enough, other) (failing s server_hello 0 unexpected_reply_code refl h nothing)
      | inr same ↦
          rw (enough, same)
            (opens s server_hello 8 s.udp_associate (granted v (ground arith) (ground arith)))
    ]
  ]

  choose-Advances :
      (s : SocksProxyImpl) (m n : ℕ)
      → s.version ≡ socks5
      → s.state ≡ server_hello
      → P.handshake_response s.server_inbuf ≡ retrieved m n
      → Advances s server_hello
          (choose_method P (state_change P 1) (record s { server_inbuf = drop n s.server_inbuf }) m)
  unfolding choose_method state_change dispatch is_established
  choose-Advances s m n v h e = elim (Bool-cases (refuses m s.credentials)) [
    | inl refused ↦
        rw refused (failing s server_hello n unsupported_auth_method refl h (method e refused))
    | inr taken ↦ elim (Bool-cases (eqb m user_pass)) [
      | inl wants ↦
          rw (taken, wants)
            (authenticates s n (
              asks_password v (password_taken m s.credentials taken wants)
                (e ∙ ap (λ k. retrieved k n) (ground arith))))
      | inr no_password ↦
          rw (taken, no_password)
            (requests s server_hello n (
              asks_nothing v
                (e ∙ ap (λ k. retrieved k n) (nothing_taken m s.credentials taken no_password))))
    ]
  ]

  hello5-Advances :
      (s : SocksProxyImpl)
      → s.version ≡ socks5
      → s.state ≡ server_hello
      → Advances s server_hello (receive_server_hello_socks5 P (state_change P 1) s)
  unfolding receive_server_hello_socks5 is_established
  hello5-Advances s v h = elim (Retrieved-cases (P.handshake_response s.server_inbuf)) [
    | inl e ↦ rw (e, receive_server_hello_socks5) (waiting s server_hello refl h)
    | inr (inl e) ↦
        rw (e, receive_server_hello_socks5)
          (failing s server_hello 0 malformed_message refl h nothing)
    | inr (inr (m, n, e)) ↦ rw (e, receive_server_hello_socks5) (choose-Advances s m n v h e)
  ]

  auth-Advances :
      (s : SocksProxyImpl)
      → s.state ≡ receive_auth_response
      → Advances s receive_auth_response (receive_auth_data P (state_change P 1) s)
  unfolding receive_auth_data state_change dispatch is_established
  auth-Advances s h = elim (Retrieved-cases (P.password_response s.server_inbuf)) [
    | inl e ↦ rw (e, receive_auth_data) (waiting s receive_auth_response refl h)
    | inr (inl e) ↦
        rw (e, receive_auth_data)
          (failing s receive_auth_response 0 malformed_message refl h nothing)
    | inr (inr (false, n, e)) ↦
        rw (e, receive_auth_data)
          (failing s receive_auth_response n auth_failed refl h (password e))
    | inr (inr (true, n, e)) ↦
        rw (e, receive_auth_data) (requests s receive_auth_response n (authenticated e))
  ]

  associate-Advances :
      (s : SocksProxyImpl) (c : Command) (a : Address) (n : ℕ)
      → s.state ≡ receive_response
      → P.response s.server_inbuf ≡ retrieved (true, a) n
      → Advances s receive_response
          (associate P (state_change P 1) (record s { server_inbuf = drop n s.server_inbuf }) c a)
  unfolding associate state_change dispatch is_established
  associate-Advances s connect a n h e = opens s receive_response n s.udp_associate (accepted e)
  associate-Advances s bind_port a n h e = opens s receive_response n s.udp_associate (accepted e)
  associate-Advances s udp_associate a n h e = elim (Option-cases (P.try_socket_addr a)) [
    | inl x ↦
        rw (x, associate) (failing s receive_response n no_socket_address refl h (association e x))
    | inr (addr, x) ↦ rw (x, associate) (opens s receive_response n (some addr) (accepted e))
  ]

  status-Advances :
      (s : SocksProxyImpl)
      → s.state ≡ receive_response
      → Advances s receive_response (receive_connection_status P (state_change P 1) s)
  unfolding receive_connection_status is_established
  status-Advances s h = elim (Retrieved-cases (P.response s.server_inbuf)) [
    | inl e ↦ rw (e, receive_connection_status) (waiting s receive_response refl h)
    | inr (inl e) ↦
        rw (e, receive_connection_status)
          (failing s receive_response 0 malformed_message refl h nothing)
    | inr (inr ((false, a), n, e)) ↦
        rw (e, receive_connection_status)
          (failing s receive_response n connection_failed refl h (connection e))
    | inr (inr ((true, a), n, e)) ↦
        rw (e, receive_connection_status) (associate-Advances s s.command a n h e)
  ]

  hello-Advances :
      (v : Version) (s : SocksProxyImpl)
      → s.version ≡ v
      → s.state ≡ server_hello
      → Advances s server_hello (receive_server_hello P (state_change P 1) v s)
  unfolding receive_server_hello
  hello-Advances socks4 s v h = hello4-Advances s v h
  hello-Advances socks5 s v h = hello5-Advances s v h

  dispatch-Advances :
      (s : SocksProxyImpl) (st : SocksState)
      → IsResting st
      → s.state ≡ st
      → Advances s st (dispatch P (state_change P 1) st s)
  unfolding dispatch relay_traffic
  dispatch-Advances s client_hello r h = absurd r
  dispatch-Advances s server_hello r h = hello-Advances s.version s refl h
  dispatch-Advances s send_auth_data r h = absurd r
  dispatch-Advances s receive_auth_response r h = auth-Advances s h
  dispatch-Advances s send_request r h = absurd r
  dispatch-Advances s receive_response r h = status-Advances s h
  dispatch-Advances s established r h = record {
    read = 0;
    message = [];
    next = rw h relays;
    moved = rw h (refl, refl, refl, refl);
    same = (refl, refl, refl, refl, refl);
  }

  -- Data from either side moves a waiting client along one transition of the handshake, or not at
  -- all. A password is sent only after the server asked for one and there are credentials, the
  -- request only after the server wants no password or took it, and the tunnel opens only after
  -- the reply that grants it. Of the server's bytes exactly that message is read, and what is sent
  -- is exactly the next message; once the tunnel is open all others of the server's bytes are
  -- queued for the client and all of the client's for the server, and before that both wait.
  pub push_data-Advances :
      (s : SocksProxyImpl) (direction : IncomingDirection) (buffer : Bytes)
      → IsResting s.state
      → Advances (receive P direction s buffer) s.state (push_data P s direction buffer)
  unfolding push_data state_change receive
  push_data-Advances s from_server buffer r =
      dispatch-Advances (receive P from_server s buffer) s.state r refl
  push_data-Advances s from_client buffer r =
      dispatch-Advances (receive P from_client s buffer) s.state r refl
