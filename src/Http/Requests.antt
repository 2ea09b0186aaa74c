-- ===== src/Http/Requests.antt =====
-- http.rs: what the requests of the client leave alone.
use tun2proxy.Proxy.{Bytes}
use tun2proxy.Http.Reply.{out_of_fuel, framing, Response}
use tun2proxy.Http.{
  HttpCrates, send_tunnel_request, HttpConnection, Outcome, out_of_fuel, challenge, framing, Bytes,
  Bool, Response, ℕ,
}
use tun2proxy.Prelude.{◌≡◌, arith, err, ◌≢◌, Bool, ℕ}

module _ (E : HttpCrates) where
  -- A request is queued for the server, and nothing else of the tunnel changes.
  pub record Requests (c : HttpConnection E) (o : Outcome E) : Type 0 where
    pub client_inbuf : o.0.client_inbuf ≡ c.client_inbuf
    pub server_inbuf : o.0.server_inbuf ≡ c.server_inbuf
    pub client_outbuf : o.0.client_outbuf ≡ c.client_outbuf
    pub state : o.0.state ≡ c.state
    pub skip : o.0.skip ≡ c.skip
    pub counter : o.0.counter ≡ c.counter
    pub crlf_state : o.0.crlf_state ≡ c.crlf_state
    pub ends : o.1 ≢ err out_of_fuel

  pub send_tunnel_request-Requests : (c : HttpConnection E) → Requests c (send_tunnel_request E c)
  unfolding send_tunnel_request
  send_tunnel_request-Requests c = ground arith

  pub challenge_ends : (before : Bool) (res : Response) → challenge E before res ≢ err out_of_fuel
  unfolding challenge
  challenge_ends before res h = ground arith

pub framing_ends :
    (is_utf8 : Bytes → Bool) (res : Response) (version : ℕ)
    → framing is_utf8 res version ≢ err out_of_fuel
unfolding framing
framing_ends is_utf8 res version h = ground arith
