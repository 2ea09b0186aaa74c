-- ===== src/Tunnel/Session.antt =====
-- proxy_handler.rs: a whole connection, as the calls that the relay makes on one handler.
use tun2proxy.Tunnel.Streams.{
  Streams, moved, IsSettled, arrived_client, taken_server, taken_client, arrived_server,
}
use tun2proxy.Tunnel.{ProxyHandler}
use tun2proxy.Prelude.{
  refl, refl, true, false, some, inl, inr, [], ◌≡◌, ◌≤◌, ◌⊎◌, arith, Bool-cases, ℕ, ◌++◌, ap, drop,
  length, sym, take, append-nil, ◌∙◌,
}
use tun2proxy.Proxy.{from_server, from_client, to_server, to_client, Bytes}

module _ (H : ProxyHandler) where
  open H use {State, queues, connection_established, push_data, consume_data, peek_data}

  -- A handler after a sequence of calls, with the bytes that the local client and the server have
  -- given it, and those that were taken from it for the local client and for the server.
  pub data Run (first : State) : State → Bytes → Bytes → Bytes → Bytes → Type 0 where
    opened : Run first first [] [] [] []
    client_pushed :
        {s : State} {c r x y : Bytes} (buffer : Bytes)
        → H.Regular s from_client buffer
        → Run first s c r x y
        → Run first (push_data s from_client buffer).0 (c ++ buffer) r x y
    server_pushed :
        {s : State} {c r x y : Bytes} (buffer : Bytes)
        → H.Regular s from_server buffer
        → Run first s c r x y
        → Run first (push_data s from_server buffer).0 c (r ++ buffer) x y
    client_consumed :
        {s s' : State} {c r x y : Bytes} (size : ℕ)
        → consume_data s to_client size ≡ some s'
        → Run first s c r x y
        → Run first s' c r (x ++ take size (peek_data s to_client)) y
    server_consumed :
        {s s' : State} {c r x y : Bytes} (size : ℕ)
        → consume_data s to_server size ≡ some s'
        → Run first s c r x y
        → Run first s' c r x (y ++ take size (peek_data s to_server))

  -- The tunnel is closed: all of the client's bytes wait, and it was given none.
  pub record Closed (s : State) (c r x : Bytes) : Type 0 where
    pub closed : connection_established s ≡ false
    pub read : ℕ
    pub unread : (queues s).server_inbuf ≡ drop read r
    pub all_wait : (queues s).client_inbuf ≡ c
    pub none_given : x ++ (queues s).client_outbuf ≡ []

  -- The tunnel is open: the client is given the server's bytes after the first `read`, and the server
  -- the client's bytes after its handshake `hello`.
  pub record Open (s : State) (c r x y : Bytes) : Type 0 where
    pub open_now : connection_established s ≡ true
    pub read : ℕ
    pub within : read ≤ length r
    pub hello : Bytes
    pub given : x ++ (queues s).client_outbuf ≡ drop read r
    pub sent : y ++ (queues s).server_outbuf ≡ hello ++ c
    pub none_unread : (queues s).server_inbuf ≡ []
    pub none_waits : (queues s).client_inbuf ≡ []

  -- A handler that has had no calls: nothing has come in, and nothing is for the client.
  pub record IsFresh (s : State) : Type 0 where
    pub no_client : (queues s).client_inbuf ≡ []
    pub no_server : (queues s).server_inbuf ≡ []
    pub no_answer : (queues s).client_outbuf ≡ []

  abbrev Accounted : State → Bytes → Bytes → Bytes → Bytes → Type 0
  Accounted s c r x y =
      Streams (queues s) (connection_established s) c r x y
      × IsSettled (queues s) (connection_established s)

  fresh-Accounted : (s : State) → IsFresh s → Accounted s [] [] [] []
  fresh-Accounted s f = (
    record {
      read = 0;
      within = omega arith;
      waiting = λ e. (f.no_server, f.no_client, f.no_answer);
      passed = λ e. (
        rw (f.no_answer, f.no_server) refl,
        ((queues s).server_outbuf, ap (λ k. (queues s).server_outbuf ++ k) f.no_client),
      );
    },
    λ e. (f.no_server, f.no_client),
  )

  consumed_client :
      (s s' : State) (c r x y : Bytes) (size : ℕ)
      → consume_data s to_client size ≡ some s'
      → Accounted s c r x y
      → Accounted s' c r (x ++ take size (peek_data s to_client)) y
  consumed_client s s' c r x y size h (i, settled) =
      let (e, f) = H.consume_client s s' size h in
      rw (e, f, H.peek_client s)
        (taken_client (queues s) (connection_established s) c r x y size i, settled)

  consumed_server :
      (s s' : State) (c r x y : Bytes) (size : ℕ)
      → consume_data s to_server size ≡ some s'
      → Accounted s c r x y
      → Accounted s' c r x (y ++ take size (peek_data s to_server))
  consumed_server s s' c r x y size h (i, settled) =
      let (e, f) = H.consume_server s s' size h in
      rw (e, f, H.peek_server s)
        (taken_server (queues s) (connection_established s) c r x y size i, settled)

  Run-Accounted :
      (first s : State) (c r x y : Bytes)
      → IsFresh first
      → Run first s c r x y
      → Accounted s c r x y
  Run-Accounted first s c r x y f opened = fresh-Accounted first f
  Run-Accounted first s c r x y f (client_pushed {s = s0} {c = c0} buffer regular run) =
      moved _ _ _ c r x y _ (H.push_data-Moves s0 from_client buffer regular) (
        arrived_client (queues s0) (connection_established s0) c0 r x y buffer
          (Run-Accounted first s0 c0 r x y f run).0)
  Run-Accounted first s c r x y f (server_pushed {s = s0} {r = r0} buffer regular run) =
      moved _ _ _ c r x y _ (H.push_data-Moves s0 from_server buffer regular) (
        arrived_server (queues s0) (connection_established s0) c r0 x y buffer
          (Run-Accounted first s0 c r0 x y f run).0)
  Run-Accounted first s c r x y f (client_consumed {s = s0} {x = x0} size h run) =
      consumed_client s0 s c r x0 y size h (Run-Accounted first s0 c r x0 y f run)
  Run-Accounted first s c r x y f (server_consumed {s = s0} {y = y0} size h run) =
      consumed_server s0 s c r x y0 size h (Run-Accounted first s0 c r x y0 f run)

  Accounted-Open :
      (s : State) (c r x y : Bytes)
      → Accounted s c r x y
      → connection_established s ≡ true
      → Open s c r x y
  Accounted-Open s c r x y (i, settled) e =
      let (a, (hello, b)) = i.passed e in
      let (none_unread, none_waits) = settled e in
      let q = queues s in
      record {
        open_now = e;
        read = i.read;
        within = i.within;
        hello = hello;
        given =
            ap (λ k. x ++ k) (sym (append-nil q.client_outbuf))
            ∙ ap (λ k. x ++ (q.client_outbuf ++ k)) (sym none_unread)
            ∙ a;
        sent =
            ap (λ k. y ++ k) (sym (append-nil q.server_outbuf))
            ∙ ap (λ k. y ++ (q.server_outbuf ++ k)) (sym none_waits)
            ∙ b;
        none_unread = none_unread;
        none_waits = none_waits;
      }

  -- Every run of a handler from a fresh state ends with a closed tunnel, in which all of the client's
  -- bytes wait, or with an open one, which has passed both streams on in order.
  pub Run-divides :
      (first s : State) (c r x y : Bytes)
      → IsFresh first
      → Run first s c r x y
      → Closed s c r x ⊎ Open s c r x y
  Run-divides first s c r x y f run =
      let account = Run-Accounted first s c r x y f run in
      elim (Bool-cases (connection_established s)) [
        | inl e ↦ inr (Accounted-Open s c r x y account e)
        | inr e ↦
            let (a, b, d) = account.0.waiting e in
            inl (record {
              closed = e;
              read = account.0.read;
              unread = a;
              all_wait = b;
              none_given = d;
            })
      ]
