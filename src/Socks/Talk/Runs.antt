-- ===== src/Socks/Talk/Runs.antt =====
-- socks.rs: the handshake in every sequence of calls on one client.
use tun2proxy.Socks.Talk.{Talk, greeted, grown, Placed, Arrived, Told, stepped}
use tun2proxy.Socks.Order.{IsResting, push_data-Advances}
use tun2proxy.Socks.Handler.{handler}
use tun2proxy.Tunnel.Session.{
  IsFresh, Run, opened, client_pushed, server_pushed, client_consumed, server_consumed,
}
use tun2proxy.Tunnel.Streams.{retaken_all}
use tun2proxy.Proxy.{Bytes, from_server, from_client, to_server, to_client}
use tun2proxy.Socks.{
  client_hello, server_hello, send_auth_data, receive_auth_response, send_request, receive_response,
  established, Protocol, SocksProxyImpl, SocksState, push_data, receive, consume_data, peek_data,
}
use tun2proxy.Prelude.{
  refl, some, inl, inr, [], arith, ◌≡◌, ◌≤◌, ◌++◌, ◌∙◌, ap, sym, subst, ℕ, length, drop, take,
  append-nil, append_assoc, drop-append_within, length-append, Bool-cases, leb,
}

module _ (P : Protocol) where
  -- More of the server's bytes, or of the client's.
  server_more :
      (st : SocksState) (s : SocksProxyImpl) (c r x y buffer : Bytes) (k : ℕ) (hello : Bytes)
      → k ≤ length r
      → Placed P st s c r x y k hello
      → Arrived P st (receive P from_server s buffer) c (r ++ buffer) x y k hello
  unfolding receive
  server_more established s c r x y buffer k hello within (a, b, d, e) = (
    ap (λ z. x ++ (s.client_outbuf ++ (z ++ buffer))) d
        ∙ sym (append_assoc x s.client_outbuf buffer)
        ∙ ap (λ z. z ++ buffer) a
        ∙ sym (drop-append_within k r buffer within),
    ap (λ z. y ++ (s.server_outbuf ++ z)) e ∙ ap (λ z. y ++ z) (append-nil s.server_outbuf) ∙ b,
  )
  server_more server_hello s c r x y buffer k hello within (a, b, d, e) =
      (a, b, ap (λ z. z ++ buffer) d ∙ sym (drop-append_within k r buffer within), e)
  server_more receive_auth_response s c r x y buffer k hello within (a, b, d, e) =
      (a, b, ap (λ z. z ++ buffer) d ∙ sym (drop-append_within k r buffer within), e)
  server_more receive_response s c r x y buffer k hello within (a, b, d, e) =
      (a, b, ap (λ z. z ++ buffer) d ∙ sym (drop-append_within k r buffer within), e)
  server_more client_hello s c r x y buffer k hello within (a, b, d, e) =
      (a, b, ap (λ z. z ++ buffer) d ∙ sym (drop-append_within k r buffer within), e)
  server_more send_auth_data s c r x y buffer k hello within (a, b, d, e) =
      (a, b, ap (λ z. z ++ buffer) d ∙ sym (drop-append_within k r buffer within), e)
  server_more send_request s c r x y buffer k hello within (a, b, d, e) =
      (a, b, ap (λ z. z ++ buffer) d ∙ sym (drop-append_within k r buffer within), e)

  client_more :
      (st : SocksState) (s : SocksProxyImpl) (c r x y buffer : Bytes) (k : ℕ) (hello : Bytes)
      → Placed P st s c r x y k hello
      → Arrived P st (receive P from_client s buffer) (c ++ buffer) r x y k hello
  unfolding receive
  client_more established s c r x y buffer k hello (a, b, d, e) = (
    ap (λ z. x ++ (s.client_outbuf ++ z)) d ∙ ap (λ z. x ++ z) (append-nil s.client_outbuf) ∙ a,
    ap (λ z. y ++ (s.server_outbuf ++ (z ++ buffer))) e
        ∙ sym (append_assoc y s.server_outbuf buffer)
        ∙ ap (λ z. z ++ buffer) b
        ∙ append_assoc hello c buffer,
  )
  client_more server_hello s c r x y buffer k hello (a, b, d, e) =
      (a, b, d, ap (λ z. z ++ buffer) e)
  client_more receive_auth_response s c r x y buffer k hello (a, b, d, e) =
      (a, b, d, ap (λ z. z ++ buffer) e)
  client_more receive_response s c r x y buffer k hello (a, b, d, e) =
      (a, b, d, ap (λ z. z ++ buffer) e)
  client_more client_hello s c r x y buffer k hello (a, b, d, e) =
      (a, b, d, ap (λ z. z ++ buffer) e)
  client_more send_auth_data s c r x y buffer k hello (a, b, d, e) =
      (a, b, d, ap (λ z. z ++ buffer) e)
  client_more send_request s c r x y buffer k hello (a, b, d, e) =
      (a, b, d, ap (λ z. z ++ buffer) e)

  -- What is taken from a queue was given to the side that it was for.
  took_client-Placed :
      (st : SocksState) (s : SocksProxyImpl) (c r x y : Bytes) (k size : ℕ) (hello : Bytes)
      → Placed P st s c r x y k hello
      → Placed P st
          (record s { client_outbuf = drop size s.client_outbuf })
          c
          r
          (x ++ take size s.client_outbuf)
          y
          k
          hello
  took_client-Placed established s c r x y k size hello (a, b, d, e) =
      (retaken_all x size s.client_outbuf ∙ a, b, d, e)
  took_client-Placed client_hello s c r x y k size hello (a, b, d, e) =
      (retaken_all x size s.client_outbuf ∙ a, b, d, e)
  took_client-Placed server_hello s c r x y k size hello (a, b, d, e) =
      (retaken_all x size s.client_outbuf ∙ a, b, d, e)
  took_client-Placed send_auth_data s c r x y k size hello (a, b, d, e) =
      (retaken_all x size s.client_outbuf ∙ a, b, d, e)
  took_client-Placed receive_auth_response s c r x y k size hello (a, b, d, e) =
      (retaken_all x size s.client_outbuf ∙ a, b, d, e)
  took_client-Placed send_request s c r x y k size hello (a, b, d, e) =
      (retaken_all x size s.client_outbuf ∙ a, b, d, e)
  took_client-Placed receive_response s c r x y k size hello (a, b, d, e) =
      (retaken_all x size s.client_outbuf ∙ a, b, d, e)

  took_server-Placed :
      (st : SocksState) (s : SocksProxyImpl) (c r x y : Bytes) (k size : ℕ) (hello : Bytes)
      → Placed P st s c r x y k hello
      → Placed P st
          (record s { server_outbuf = drop size s.server_outbuf })
          c
          r
          x
          (y ++ take size s.server_outbuf)
          k
          hello
  took_server-Placed established s c r x y k size hello (a, b, d, e) =
      (a, retaken_all y size s.server_outbuf ∙ b, d, e)
  took_server-Placed client_hello s c r x y k size hello (a, b, d, e) =
      (a, retaken_all y size s.server_outbuf ∙ b, d, e)
  took_server-Placed server_hello s c r x y k size hello (a, b, d, e) =
      (a, retaken_all y size s.server_outbuf ∙ b, d, e)
  took_server-Placed send_auth_data s c r x y k size hello (a, b, d, e) =
      (a, retaken_all y size s.server_outbuf ∙ b, d, e)
  took_server-Placed receive_auth_response s c r x y k size hello (a, b, d, e) =
      (a, retaken_all y size s.server_outbuf ∙ b, d, e)
  took_server-Placed send_request s c r x y k size hello (a, b, d, e) =
      (a, retaken_all y size s.server_outbuf ∙ b, d, e)
  took_server-Placed receive_response s c r x y k size hello (a, b, d, e) =
      (a, retaken_all y size s.server_outbuf ∙ b, d, e)

  consumed_client :
      (s s' : SocksProxyImpl) (size : ℕ)
      → consume_data s to_client size ≡ some s'
      → record s { client_outbuf = drop size s.client_outbuf } ≡ s'
  unfolding consume_data
  consumed_client s s' size h = elim (Bool-cases (leb size (length s.client_outbuf))) [
    | inl e ↦ cc (rw (e, consume_data) at h)
    | inr e ↦ ground (arith, (rw (e, consume_data) at h))
  ]

  consumed_server :
      (s s' : SocksProxyImpl) (size : ℕ)
      → consume_data s to_server size ≡ some s'
      → record s { server_outbuf = drop size s.server_outbuf } ≡ s'
  unfolding consume_data
  consumed_server s s' size h = elim (Bool-cases (leb size (length s.server_outbuf))) [
    | inl e ↦ cc (rw (e, consume_data) at h)
    | inr e ↦ ground (arith, (rw (e, consume_data) at h))
  ]

  pub Run-Told :
      (first s : SocksProxyImpl) (c r x y : Bytes)
      → first.state ≡ server_hello
      → IsFresh (handler P) first
      → Run (handler P) first s c r x y
      → Told P first s c r x y
  unfolding peek_data receive
  Run-Told first s c r x y greets f opened = record {
    read = 0;
    hello = first.server_outbuf;
    within = omega arith;
    talk = subst (λ st. Talk P first [] st 0 first.server_outbuf) (sym greets) greeted;
    same = (refl, refl, refl, refl, refl);
    rests = subst (IsResting P) (sym greets) tt;
    placed =
        subst (λ st. Placed P st first [] [] [] [] 0 first.server_outbuf) (sym greets)
          (f.no_answer, refl, f.no_server, f.no_client);
  }
  Run-Told first s c r x y greets f (client_pushed {s = s0} {c = c0} buffer u run) =
      let t = Run-Told first s0 c0 r x y greets f run in
      stepped P first (receive P from_client s0 buffer) (push_data P s0 from_client buffer) c r x y
        t.read t.hello t.within t.same s0.state t.rests t.talk
        (client_more s0.state s0 c0 r x y buffer t.read t.hello t.placed)
        (push_data-Advances P s0 from_client buffer t.rests)
  Run-Told first s c r x y greets f (server_pushed {s = s0} {r = r0} buffer u run) =
      let t = Run-Told first s0 c r0 x y greets f run in
      stepped P first (receive P from_server s0 buffer) (push_data P s0 from_server buffer) c r x y
        t.read t.hello (omega (arith, t.within, length-append r0 buffer)) t.same s0.state t.rests
        (grown P first r0 buffer s0.state t.read t.hello t.talk)
        (server_more s0.state s0 c r0 x y buffer t.read t.hello t.within t.placed)
        (push_data-Advances P s0 from_server buffer t.rests)
  Run-Told first s c r x y greets f (client_consumed {s = s0} {x = x0} size h run) =
      let t = Run-Told first s0 c r x0 y greets f run in
      subst (λ s'. Told P first s' c r (x0 ++ take size s0.client_outbuf) y)
        (consumed_client s0 s size h)
        (record {
          read = t.read;
          hello = t.hello;
          within = t.within;
          talk = t.talk;
          same = t.same;
          rests = t.rests;
          placed = took_client-Placed s0.state s0 c r x0 y t.read size t.hello t.placed;
        })
  Run-Told first s c r x y greets f (server_consumed {s = s0} {y = y0} size h run) =
      let t = Run-Told first s0 c r x y0 greets f run in
      subst (λ s'. Told P first s' c r x (y0 ++ take size s0.server_outbuf))
        (consumed_server s0 s size h)
        (record {
          read = t.read;
          hello = t.hello;
          within = t.within;
          talk = t.talk;
          same = t.same;
          rests = t.rests;
          placed = took_server-Placed s0.state s0 c r x y0 t.read size t.hello t.placed;
        })
