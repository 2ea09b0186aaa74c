-- ===== src/Http/Steps.antt =====
-- http.rs: the recursion of `state_change`, and what a call of `push_data` does.
use tun2proxy.Http.Relay.{
  Ends, Fits, rank, rank_of, queues, stops, goes_on, headers-Ends, rest-Ends,
}
use tun2proxy.Proxy.{from_server, from_client, IncomingDirection}
use tun2proxy.Http.{receive, enough, push_data, relay, state_change, dispatch}
use tun2proxy.Tunnel.{arrived}
use tun2proxy.Tunnel.{Moves}
use tun2proxy.Proxy.{Bytes}
use tun2proxy.Prelude.{refl, zero, suc, inr, ◌≡◌, arith, ok, err, ℕ, ◌*◌, length, ◌<◌, ◌+◌, ◌≢◌, ap}
use tun2proxy.Http.{
  send_request, expect_response_headers, expect_response, reset, established, HttpState, HttpCrates,
  Bytes, HttpConnection, ℕ, length, connection_established, out_of_fuel, is_established,
}
use tun2proxy.Http.Reply.{out_of_fuel}

module _ (E : HttpCrates) where
  relay-Ends : (c : HttpConnection E) → c.state ≡ established → Ends E c (relay E c)
  unfolding relay connection_established is_established
  relay-Ends c e = (
    inr (record {
      open_now = ap (is_established E) e;
      reply = 0;
      reply_read = omega arith;
      no_reply = inr (refl, refl);
      to_client_sent = refl;
      to_server_sent = (c.server_outbuf, refl);
      client_read = refl;
      server_read_all = refl;
    }),
    λ x. cc,
  )

  dispatch-Ends :
      (fuel : ℕ)
      → ((c : HttpConnection E)
          → Fits E c.server_inbuf
          → rank_of E c < fuel
          → Ends E c (state_change E fuel c))
      → (st : HttpState) (c : HttpConnection E) → c.state ≡ st
      → Fits E c.server_inbuf
      → rank st c.skip (length c.server_inbuf) < suc fuel
      → Ends E c (dispatch E (state_change E fuel) st c)
  unfolding dispatch connection_established is_established
  dispatch-Ends fuel ih send_request c e fits lt =
      stops E c c (ok tt) 0 (ap (is_established E) e) (ap (is_established E) e) refl refl refl
        (λ x. cc)
  dispatch-Ends fuel ih expect_response_headers c e fits lt =
      headers-Ends E fuel (state_change E fuel) ih c fits (ap (is_established E) e)
        (omega (arith, lt))
  dispatch-Ends fuel ih expect_response c e fits lt =
      rest-Ends E fuel (state_change E fuel) ih c fits (ap (is_established E) e) (omega (arith, lt))
  dispatch-Ends fuel ih reset c e fits lt =
      goes_on E fuel (state_change E fuel) ih c fits (ap (is_established E) e)
        (record c { state = expect_response_headers }) 0 (omega (arith, lt)) refl refl refl
  dispatch-Ends fuel ih established c e fits lt = relay-Ends c e

  -- With enough fuel a call of `state_change` ends, and moves bytes as the contract allows.
  pub state_change-Ends :
      (fuel : ℕ) (c : HttpConnection E)
      → Fits E c.server_inbuf
      → rank_of E c < fuel
      → Ends E c (state_change E fuel c)
  unfolding state_change
  state_change-Ends zero c fits lt = absurd (omega (arith, lt))
  state_change-Ends (suc fuel) c fits lt =
      dispatch-Ends fuel (state_change-Ends fuel) c.state c refl fits lt

  rank-enough : (st : HttpState) (skip len : ℕ) → rank st skip len < 2 * len + 3
  rank-enough send_request skip len = omega arith
  rank-enough expect_response_headers skip len = omega arith
  rank-enough expect_response skip len = ground arith
  rank-enough reset skip len = omega arith
  rank-enough established skip len = omega arith

  -- A call of push_data on an HTTP connection, where no reply in what the server has sent names a
  -- length that wraps, ends by itself. Until the tunnel is open the client's bytes wait, none is
  -- passed to the client, and of the server's bytes at most a first part is read; when it is open
  -- all of the client's bytes are queued for the server, last and in order, and of the server's
  -- bytes all that follow a first part are queued for the client, and an open tunnel reads no
  -- such part.
  pub push_data-Ends :
      (c : HttpConnection E) (direction : IncomingDirection) (buffer : Bytes)
      → Fits E (receive E direction c buffer).server_inbuf
      → Moves
          (arrived direction (queues E c) buffer)
          (connection_established E c)
          (queues E (push_data E c direction buffer).0)
          (connection_established E (push_data E c direction buffer).0)
        × ((push_data E c direction buffer).1 ≢ err out_of_fuel)
  unfolding push_data connection_established
  push_data-Ends c from_server buffer fits =
      let c' = receive E from_server c buffer in
      state_change-Ends (enough E c') c' fits
        (rank-enough c'.state c'.skip (length c'.server_inbuf))
  push_data-Ends c from_client buffer fits =
      let c' = receive E from_client c buffer in
      state_change-Ends (enough E c') c' fits
        (rank-enough c'.state c'.skip (length c'.server_inbuf))
