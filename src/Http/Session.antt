-- ===== src/Http/Session.antt =====
-- http.rs: a whole connection, as the calls that the relay makes on one client.
use tun2proxy.Http.Steps.{push_data-Ends}
use tun2proxy.Http.Relay.{Fits, queues}
use tun2proxy.Http.Requests.{send_tunnel_request-Requests}
use tun2proxy.Http.{
  HttpCrates, HttpConnection, new, receive, push_data, consume_data, peek_data,
  connection_established, expect_response_headers, ℕ, drop, send_tunnel_request, length, leb, true,
}
use tun2proxy.Http.Reply.{HttpError}
use tun2proxy.Tunnel.{ProxyHandler}
use tun2proxy.Tunnel.Session.{Run, Closed, Open, Run-divides, IsFresh}
use tun2proxy.Proxy.{SocketAddr, SessionInfo, Bytes, UserKey, to_client, to_server}
use tun2proxy.Prelude.{
  refl, false, some, inl, inr, [], ◌≡◌, ◌⊎◌, ok, Option, arith, ℕ, drop, Result-cases, subst,
  length, leb, true,
}

module _ (E : HttpCrates) where
  pub consume_data-client :
      (s s' : HttpConnection E) (size : ℕ)
      → consume_data E s to_client size ≡ some s'
      → (queues E s' ≡ record (queues E s) { client_outbuf = drop size s.client_outbuf })
        × (connection_established E s' ≡ connection_established E s)
  unfolding consume_data connection_established
  consume_data-client s s' size h = ground arith

  pub consume_data-server :
      (s s' : HttpConnection E) (size : ℕ)
      → consume_data E s to_server size ≡ some s'
      → (queues E s' ≡ record (queues E s) { server_outbuf = drop size s.server_outbuf })
        × (connection_established E s' ≡ connection_established E s)
  unfolding consume_data connection_established
  consume_data-server s s' size h = ground arith

  pub consume_all :
      (s : HttpConnection E)
      → (s' : HttpConnection E) × (consume_data E s to_client (length (peek_data E s to_client))
          ≡ some s')
  unfolding consume_data peek_data
  consume_all s =
      let all : leb (length s.client_outbuf) (length s.client_outbuf) ≡ true = ground arith in
      (record s { client_outbuf = drop (length s.client_outbuf) s.client_outbuf }, rw all refl)

  pub peek_client : (s : HttpConnection E) → peek_data E s to_client ≡ s.client_outbuf
  unfolding peek_data
  peek_client s = refl

  pub peek_server : (s : HttpConnection E) → peek_data E s to_server ≡ s.server_outbuf
  unfolding peek_data
  peek_server s = refl

  abbrev pub handler : ProxyHandler
  handler = record {
    State = HttpConnection E;
    Failure = HttpError;
    queues = queues E;
    connection_established = connection_established E;
    push_data = push_data E;
    consume_data = consume_data E;
    peek_data = peek_data E;
    Regular = λ c direction buffer. Fits E (receive E direction c buffer).server_inbuf;
    push_data-Moves = λ c direction buffer fits. (push_data-Ends E c direction buffer fits).0;
    peek_client = peek_client;
    peek_server = peek_server;
    consume_all = consume_all;
    consume_client = consume_data-client;
    consume_server = consume_data-server;
  }

  new-IsFresh :
      (addr : SocketAddr) (info : SessionInfo) (domain : Option Bytes)
      (credentials : Option UserKey) (digest_state : Option E.DigestState) (s : HttpConnection E)
      → new E addr info domain credentials digest_state ≡ ok s
      → IsFresh handler s
  unfolding new
  new-IsFresh addr info domain credentials digest_state s h =
      let start : HttpConnection E = record {
        server_addr = addr;
        state = expect_response_headers;
        client_inbuf = [];
        server_inbuf = [];
        client_outbuf = [];
        server_outbuf = [];
        crlf_state = 0;
        counter = 0;
        skip = 0;
        digest_state = digest_state;
        before = false;
        credentials = credentials;
        info = info;
        domain_name = domain;
      } in
      let q = send_tunnel_request-Requests E start in
      elim (Result-cases (send_tunnel_request E start).1) [
        | inr (x, e) ↦ ground (arith, (rw (e, new) at h))
        | inl (u, e) ↦
            let same : (send_tunnel_request E start).0 ≡ s = cc (rw (e, new) at h) in
            subst (IsFresh handler) same (record {
              no_client = q.client_inbuf;
              no_server = q.server_inbuf;
              no_answer = q.client_outbuf;
            })
      ]

  -- In every connection through an HTTP proxy in which no reply names a length that wraps,
  -- whatever the two sides send and in whatever pieces it comes and is taken: before the tunnel
  -- is open all of the client's bytes wait and the client was given none; in an open tunnel what
  -- the client was given and is going to get is the server's bytes without some first part, and
  -- what the server was given and is going to get ends with exactly the client's bytes, in order
  -- and without a gap, and nothing waits.
  pub Run-passes :
      (addr : SocketAddr) (info : SessionInfo) (domain : Option Bytes)
      (credentials : Option UserKey) (digest_state : Option E.DigestState)
      (first s : HttpConnection E) (c r x y : Bytes)
      → new E addr info domain credentials digest_state ≡ ok first
      → Run handler first s c r x y
      → Closed handler s c r x ⊎ Open handler s c r x y
  Run-passes addr info domain credentials digest_state first s c r x y made run =
      Run-divides handler first s c r x y
        (new-IsFresh addr info domain credentials digest_state first made) run
