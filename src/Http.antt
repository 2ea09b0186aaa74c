-- ===== src/Http.antt =====
-- http.rs: the client side of an HTTP CONNECT connection as a state machine over four buffers.
-- httparse, digest_auth, base64easy and the texts of addresses are parameters.
pub mod Reply
pub mod Requests
pub mod Relay
pub mod Steps
pub mod Opening
pub mod Session
use tun2proxy.Http.Reply.{
  partial, invalid, complete, framing, scan_headers, find_header, out_of_fuel, Status,
  digest_missing, HttpError, Response, wrong_protocol, is_digest_scheme, no_status_code,
  bad_response, digest_failed, no_version, no_challenge, unsupported_scheme, no_reason, not_text,
  unexpected_status, bad_challenge, bad_credentials,
}
use tun2proxy.Prelude.{
  zero, suc, true, false, none, some, [], ◌∷◌, ok, err, ◌+◌, ◌-◌, ◌%◌, ◌^◌, ◌≡◌, ◌≤◌, ◌<◌, ◌++◌,
  ◌&&◌, bytes_eq, ◌>>=◌, ◌>>◌, guard, ok_or, codes, bytes_beq, eq_ignore_ascii_case, ℕ, List, drop,
  Result, if◌then◌else◌, Bool, Option, ◌*◌, leb, parse_usize, ◌||◌, ltb, length, eqb, not, take,
  split,
}
use tun2proxy.Proxy.{
  Bytes, SocketAddr, SessionInfo, UserKey, IncomingDirection, from_server, from_client,
  OutgoingDirection, to_server, to_client, tcp, IpProtocol,
}

pub data AuthenticationScheme : Type 0 where
  none_scheme basic digest : AuthenticationScheme

pub data HttpState : Type 0 where
  send_request expect_response_headers expect_response reset established : HttpState

-- What the connection takes from other crates. `respond` advances the state of the challenge, and
-- may fail.
pub record HttpCrates : Type 1 where
  pub parse : Bytes → Status
  pub DigestState : Type 0
  pub stale : DigestState → Bool
  pub parse_challenge : Bytes → Option DigestState
  pub respond : DigestState → UserKey → Bytes → DigestState × Option Bytes
  pub encode : Bytes → Bytes
  pub is_utf8 : Bytes → Bool
  pub socket_text : SocketAddr → Bytes
  pub number_text : ℕ → Bytes
  pub parse-length :
      (bs : Bytes) (n : ℕ) (r : Response) → parse bs ≡ complete n r → (0 < n) × (n ≤ length bs)

module _ (E : HttpCrates) where
  open E use {
    parse, DigestState, stale, parse_challenge, respond, encode, is_utf8, socket_text, number_text,
  }

  -- `digest_state` stands for the cell that the connections of one manager share, as it is during a
  -- call.
  pub record HttpConnection : Type 0 where
    pub server_addr : SocketAddr
    pub state : HttpState
    pub client_inbuf : Bytes
    pub server_inbuf : Bytes
    pub client_outbuf : Bytes
    pub server_outbuf : Bytes
    pub crlf_state : ℕ
    pub counter : ℕ
    pub skip : ℕ
    pub digest_state : Option DigestState
    pub before : Bool
    pub credentials : Option UserKey
    pub info : SessionInfo
    pub domain_name : Option Bytes

  abbrev pub Outcome : Type 0
  Outcome = HttpConnection × Result HttpError Unit

  abbrev pub send : HttpConnection → Bytes → HttpConnection
  send c bytes = record c { server_outbuf = c.server_outbuf ++ bytes }

  -- The value of `Proxy-Authorization`: `user:password` as it is, encoded.
  unfoldable pub basic_auth_header_value : UserKey → Bytes
  basic_auth_header_value k = codes "Basic " ++ encode (k.username ++ (b':' ∷ k.password))

  unfoldable pub host : HttpConnection → Bytes
  host c = elim c.domain_name [
    | some domain ↦ domain ++ (b':' ∷ number_text c.info.dst.port)
    | none ↦ socket_text c.info.dst
  ]

  abbrev authorization : Bytes → Bytes
  authorization value = codes "Proxy-Authorization: " ++ (value ++ codes "\r\n")

  -- Where there are credentials.
  answer_challenge : HttpConnection → AuthenticationScheme → UserKey → Outcome
  unfolding basic_auth_header_value host
  answer_challenge c none_scheme k = (c, ok tt)
  answer_challenge c basic k = (send c (authorization (basic_auth_header_value k)), ok tt)
  answer_challenge c digest k = elim c.digest_state [
    | none ↦ (c, err digest_missing)
    | some d ↦
        let (d', value) = respond d k (host c) in
        let c' = record c { digest_state = some d' } in
        elim value [ none ↦ (c', err digest_failed) | some v ↦ (send c' (authorization v), ok tt) ]
  ]

  unfoldable pub send_auth_data : HttpConnection → AuthenticationScheme → Outcome
  unfolding answer_challenge
  send_auth_data c scheme = elim c.credentials [
    | none ↦ (c, ok tt)
    | some k ↦ answer_challenge c scheme k
  ]

  abbrev scheme_of : Option DigestState → AuthenticationScheme
  scheme_of none = basic
  scheme_of (some d) = digest

  unfoldable pub request_head : HttpConnection → Bytes
  unfolding host
  request_head c =
      codes "CONNECT " ++ (host c ++ (codes " HTTP/1.1\r\nHost: " ++ (host c ++ codes "\r\n")))

  unfoldable pub send_tunnel_request : HttpConnection → Outcome
  unfolding request_head send_auth_data
  send_tunnel_request c =
      let (c', r) = send_auth_data (send c (request_head c)) (scheme_of c.digest_state) in
      elim r [ err e ↦ (c', err e) | ok _ ↦ (send c' (codes "\r\n"), ok tt) ]

  unfoldable pub new :
      SocketAddr
      → SessionInfo
      → Option Bytes
      → Option UserKey
      → Option DigestState
      → Result HttpError HttpConnection
  new server_addr info domain_name credentials digest_state =
      let (c, r) = send_tunnel_request (record {
        server_addr = server_addr;
        state = expect_response_headers;
        client_inbuf = [];
        server_inbuf = [];
        client_outbuf = [];
        server_outbuf = [];
        crlf_state = 0;
        counter = 0;
        skip = 0;
        digest_state = digest_state;
        before = false;
        credentials = credentials;
        info = info;
        domain_name = domain_name;
      }) in
      elim r [ ok _ ↦ ok c | err e ↦ err e ]

  is_tcp : IpProtocol → Bool
  is_tcp tcp = true
  is_tcp _ = false

  -- `HttpManager::new_proxy_handler`
  unfoldable pub new_proxy_handler :
      SocketAddr
      → SessionInfo
      → Option Bytes
      → Option UserKey
      → Option DigestState
      → Result HttpError HttpConnection
  unfolding is_tcp
  new_proxy_handler server info domain_name credentials digest_state =
      if is_tcp info.protocol
      then new server info domain_name credentials digest_state
      else err wrong_protocol

  -- A new request on a connection that will be opened again.
  unfoldable pub restart : HttpConnection → Outcome
  restart c =
      let (c', r) = send_tunnel_request (record c { server_inbuf = []; server_outbuf = [] }) in
      elim r [ err e ↦ (c', err e) | ok _ ↦ (record c' { state = reset }, ok tt) ]

  -- The challenge of a 407 reply, if it can be answered.
  unfoldable pub challenge : Bool → Response → Result HttpError DigestState
  unfolding find_header is_digest_scheme
  challenge before res = do
    auth_data ← ok_or (find_header (codes "Proxy-Authenticate") res.headers) no_challenge
    guard (is_digest_scheme auth_data) unsupported_scheme
    guard (is_utf8 auth_data) not_text
    d ← ok_or (parse_challenge auth_data) bad_challenge
    guard (not (before && not (stale d))) bad_credentials
    ok d

  unfoldable pub relay : HttpConnection → Outcome
  relay c = (
    record c {
      client_outbuf = c.client_outbuf ++ c.server_inbuf;
      server_outbuf = c.server_outbuf ++ c.client_inbuf;
      server_inbuf = [];
      client_inbuf = [];
    },
    ok tt,
  )

  -- `Vec::drain` of what there is of the reply.
  abbrev pub skip_reply : HttpConnection → HttpConnection
  skip_reply c =
      let cnt = if ltb c.skip (length c.server_inbuf) then c.skip else length c.server_inbuf in
      record c { server_inbuf = drop cnt c.server_inbuf; skip = c.skip - cnt }

  -- In the handlers below `go_on` is the call of `state_change` that ends them.
  module _ (go_on : HttpConnection → Outcome) where
    -- A 407 reply whose head has `len` bytes. The sum of the lengths wraps.
    unfoldable pub authenticate : HttpConnection → ℕ → Response → ℕ → Outcome
    unfolding challenge framing restart
    authenticate c len res version = elim (challenge c.before res) [
      | err e ↦ (c, err e)
      | ok d ↦
          let c' = record c { digest_state = some d; before = true } in
          elim (framing is_utf8 res version) [
            | err e ↦ (c', err e)
            | ok none ↦ restart c'
            | ok (some n) ↦ go_on (record c' { state = expect_response; skip = (n + len) % 2 ^ 64 })
          ]
    ]

    -- A complete reply; `header_size` is where the scan found its end.
    unfoldable pub receive_reply : HttpConnection → ℕ → ℕ → Response → Outcome
    unfolding authenticate
    receive_reply c header_size len res = elim res.code [
      | none ↦ (c, err no_status_code)
      | some code ↦ elim res.version [
        | none ↦ (c, err no_version)
        | some version ↦
            if eqb code 200
            then go_on
                (record c { state = established; server_inbuf = drop header_size c.server_inbuf })
            else if not (eqb code 407)
            then elim res.reason [
              | none ↦ (c, err no_reason)
              | some reason ↦ (c, err unexpected_status)
            ]
            else authenticate c len res version
      ]
    ]

    unfoldable pub receive_headers : HttpConnection → Outcome
    unfolding scan_headers receive_reply
    receive_headers c =
        let (counter, crlf) = scan_headers c.counter c.crlf_state (drop c.counter c.server_inbuf) in
        if not (eqb crlf 2)
        then (record c { counter = counter; crlf_state = crlf }, ok tt)
        else (let c' = record c { counter = 0; crlf_state = 0 } in
            elim (parse c'.server_inbuf) [
              | invalid ↦ (c', err bad_response)
              | partial ↦ (c', ok tt)
              | complete len res ↦ receive_reply c' counter len res
            ])

    unfoldable pub receive_rest : HttpConnection → Outcome
    receive_rest c =
        let c' = skip_reply c in
        if eqb c'.skip 0
        then (let (c2, r) = send_tunnel_request c' in
            elim r [
              | err e ↦ (c2, err e)
              | ok _ ↦ go_on (record c2 { state = expect_response_headers })
            ])
        else (c', ok tt)

    unfoldable pub dispatch : HttpState → HttpConnection → Outcome
    dispatch send_request c = (c, ok tt)
    dispatch expect_response_headers c = receive_headers c
    dispatch expect_response c = receive_rest c
    dispatch reset c = go_on (record c { state = expect_response_headers })
    dispatch established c = relay c

  unfoldable pub state_change : ℕ → HttpConnection → Outcome
  state_change zero c = (c, err out_of_fuel)
  state_change (suc fuel) c = dispatch (state_change fuel) c.state c

  abbrev pub receive : IncomingDirection → HttpConnection → Bytes → HttpConnection
  receive from_server c buffer = record c { server_inbuf = c.server_inbuf ++ buffer }
  receive from_client c buffer = record c { client_inbuf = c.client_inbuf ++ buffer }

  -- A reply takes two levels of calls, and one byte at least.
  abbrev pub enough : HttpConnection → ℕ
  enough c = 2 * length c.server_inbuf + 3

  unfoldable pub push_data : HttpConnection → IncomingDirection → Bytes → Outcome
  push_data c direction buffer = let c' = receive direction c buffer in state_change (enough c') c'

  is_established : HttpState → Bool
  is_established established = true
  is_established _ = false

  unfoldable pub connection_established : HttpConnection → Bool
  unfolding is_established
  connection_established c = is_established c.state

  is_reset : HttpState → Bool
  is_reset reset = true
  is_reset _ = false

  unfoldable pub reset_connection : HttpConnection → Bool
  unfolding is_reset
  reset_connection c = is_reset c.state

  -- `drain(0..size)` panics past the end, which is `none`.
  unfoldable pub consume_data : HttpConnection → OutgoingDirection → ℕ → Option HttpConnection
  consume_data c to_server size =
      if leb size (length c.server_outbuf)
      then some (record c { server_outbuf = drop size c.server_outbuf })
      else none
  consume_data c to_client size =
      if leb size (length c.client_outbuf)
      then some (record c { client_outbuf = drop size c.client_outbuf })
      else none

  unfoldable pub peek_data : HttpConnection → OutgoingDirection → Bytes
  peek_data c to_server = c.server_outbuf
  peek_data c to_client = c.client_outbuf

  unfoldable pub data_len : HttpConnection → OutgoingDirection → ℕ
  data_len c to_server = length c.server_outbuf
  data_len c to_client = length c.client_outbuf
