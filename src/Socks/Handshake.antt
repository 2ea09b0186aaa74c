-- ===== src/Socks/Handshake.antt =====
-- socks.rs: the calls between `state_change` and the handlers.
use tun2proxy.Prelude.{true, false, ◌≡◌, refl, arith, suc, drop, ℕ, inl, inr, ◌⊎◌, Option-cases}
use tun2proxy.Socks.{
  Protocol, SocksProxyImpl, SocksState, client_hello, server_hello, send_auth_data,
  receive_auth_response, send_request, receive_response, established, dispatch, state_change,
  Version, socks4, socks5, Command, connect, bind_port, udp_associate, Outcome, receive_auth_data,
  choose_method, receive_server_hello_socks4, receive_connection_status,
  receive_server_hello_socks5, receive_server_hello, Retrieved, associate, unexpected_eof, Address,
  malformed, retrieved,
}

-- The states whose handlers call nothing.
abbrev IsLast : SocksState → Type 0
IsLast server_hello = ⊥
IsLast receive_auth_response = ⊥
IsLast receive_response = ⊥
IsLast _ = Unit

pub Retrieved-cases :
    {A : Type 0} (r : Retrieved A)
    → (r ≡ unexpected_eof) ⊎ (r ≡ malformed) ⊎ ((a : A) × (n : ℕ) × (r ≡ retrieved a n))
Retrieved-cases unexpected_eof = inl refl
Retrieved-cases malformed = inr (inl refl)
Retrieved-cases (retrieved a n) = inr (inr (a, n, refl))

module _ (P : Protocol) where
  -- There the handler does not depend on the call that it could make.
  dispatch-IsLast :
      (g h : SocksProxyImpl → Outcome) (st : SocksState) (s : SocksProxyImpl)
      → IsLast st
      → dispatch P g st s ≡ dispatch P h st s
  unfolding dispatch
  dispatch-IsLast g h client_hello s l = refl
  dispatch-IsLast g h server_hello s l = absurd l
  dispatch-IsLast g h send_auth_data s l = refl
  dispatch-IsLast g h receive_auth_response s l = absurd l
  dispatch-IsLast g h send_request s l = refl
  dispatch-IsLast g h receive_response s l = absurd l
  dispatch-IsLast g h established s l = refl

  module _ (g h : SocksProxyImpl → Outcome)
      (agree : (s : SocksProxyImpl) → IsLast s.state → g s ≡ h s) where
    hello4_cong :
        (s : SocksProxyImpl) → receive_server_hello_socks4 P g s ≡ receive_server_hello_socks4 P h s
    unfolding receive_server_hello_socks4
    hello4_cong s =
        ground
          (arith, agree (record s { server_inbuf = drop 8 s.server_inbuf; state = established }) tt)

    choose_cong : (s : SocksProxyImpl) (m : ℕ) → choose_method P g s m ≡ choose_method P h s m
    unfolding choose_method
    choose_cong s m = ground (
      arith,
      agree (record s { state = send_auth_data }) tt,
      agree (record s { state = send_request }) tt,
    )

    hello5_cong :
        (s : SocksProxyImpl) → receive_server_hello_socks5 P g s ≡ receive_server_hello_socks5 P h s
    unfolding receive_server_hello_socks5
    hello5_cong s = elim (Retrieved-cases (P.handshake_response s.server_inbuf)) [
      | inl e ↦ rw (e, receive_server_hello_socks5)
      | inr (inl e) ↦ rw (e, receive_server_hello_socks5)
      | inr (inr (m, n, e)) ↦
          rw (e, receive_server_hello_socks5)
            (choose_cong (record s { server_inbuf = drop n s.server_inbuf }) m)
    ]

    auth_cong : (s : SocksProxyImpl) → receive_auth_data P g s ≡ receive_auth_data P h s
    unfolding receive_auth_data
    auth_cong s = elim (Retrieved-cases (P.password_response s.server_inbuf)) [
      | inl e ↦ rw (e, receive_auth_data)
      | inr (inl e) ↦ rw (e, receive_auth_data)
      | inr (inr (true, n, e)) ↦ rw (e, receive_auth_data) (agree _ tt)
      | inr (inr (false, n, e)) ↦ rw (e, receive_auth_data)
    ]

    associate_cong :
        (s : SocksProxyImpl) (c : Command) (a : Address) → associate P g s c a ≡ associate P h s c a
    unfolding associate
    associate_cong s connect a = agree _ tt
    associate_cong s bind_port a = agree _ tt
    associate_cong s udp_associate a = elim (Option-cases (P.try_socket_addr a)) [
      | inl e ↦ rw (e, associate)
      | inr (addr, e) ↦ rw (e, associate) (agree _ tt)
    ]

    status_cong :
        (s : SocksProxyImpl) → receive_connection_status P g s ≡ receive_connection_status P h s
    unfolding receive_connection_status
    status_cong s = elim (Retrieved-cases (P.response s.server_inbuf)) [
      | inl e ↦ rw (e, receive_connection_status)
      | inr (inl e) ↦ rw (e, receive_connection_status)
      | inr (inr ((false, a), n, e)) ↦ rw (e, receive_connection_status)
      | inr (inr ((true, a), n, e)) ↦
          rw (e, receive_connection_status)
            (associate_cong (record s { server_inbuf = drop n s.server_inbuf }) s.command a)
    ]

    hello_cong :
        (v : Version) (s : SocksProxyImpl)
        → receive_server_hello P g v s ≡ receive_server_hello P h v s
    unfolding receive_server_hello
    hello_cong socks4 s = hello4_cong s
    hello_cong socks5 s = hello5_cong s

    dispatch_cong : (st : SocksState) (s : SocksProxyImpl) → dispatch P g st s ≡ dispatch P h st s
    unfolding dispatch
    dispatch_cong client_hello s = refl
    dispatch_cong server_hello s = hello_cong s.version s
    dispatch_cong send_auth_data s = refl
    dispatch_cong receive_auth_response s = auth_cong s
    dispatch_cong send_request s = refl
    dispatch_cong receive_response s = status_cong s
    dispatch_cong established s = refl

  -- The recursion is never deeper than two calls: for every state and every input, what `push_data`
  -- computes with two levels of fuel, or with more, is what one dispatch gives whose calls of
  -- state_change are one more dispatch each, whatever stands in place of a third call, which is
  -- never made.
  pub state_change-fuel :
      (third : SocksProxyImpl → Outcome) (fuel : ℕ) (s : SocksProxyImpl)
      → state_change P (suc (suc fuel)) s
        ≡ dispatch P (λ s'. dispatch P third s'.state s') s.state s
  unfolding state_change
  state_change-fuel third fuel s =
      dispatch_cong (state_change P (suc fuel)) (λ s'. dispatch P third s'.state s')
        (λ s' l. dispatch-IsLast (state_change P fuel) third s'.state s' l) s.state s
