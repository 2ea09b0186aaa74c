-- ===== src/Tests/Http.antt =====
-- Inputs for the theorems about http.rs and no_proxy.rs: replies of three bytes, a kind and an empty
-- line, of which the refusals ask for a digest and are followed by one byte.
use tun2proxy.Http.Opening.{Opens, head_of, push_data-Opens}
use tun2proxy.Http.Session.{Run-passes, handler}
use tun2proxy.Http.Steps.{push_data-Ends}
use tun2proxy.Http.Relay.{Fits, queues}
use tun2proxy.Http.Reply.{
  partial, complete, Response, Status, out_of_fuel, framing, find_header, content_length, HttpError,
  is_digest_scheme, scan_headers,
}
use tun2proxy.Http.{
  connection_established, HttpCrates, HttpConnection, new, push_data, receive,
  expect_response_headers, state_change, established, connection_established, dispatch,
  receive_headers, receive_reply, authenticate, restart, receive_rest, relay, challenge,
  send_tunnel_request, request_head, host, send_auth_data, basic_auth_header_value,
}
use tun2proxy.Tunnel.{arrived, Moves}
use tun2proxy.Tunnel.Session.{Closed, Open, opened, server_pushed, client_pushed}
use tun2proxy.NoProxy.Session.{Run-transparent}
use tun2proxy.NoProxy
use tun2proxy.NoProxy.{NoProxyHandler}
use tun2proxy.Proxy.{SessionInfo, SocketAddr, Bytes, from_server, from_client, tcp}
use tun2proxy.Ip.{v4}
use tun2proxy.Prelude.{
  refl, zero, suc, true, false, none, some, [], ◌∷◌, ◌≡◌, ◌⊎◌, ◌≢◌, ok, err, arith, ℕ, ◌++◌, codes,
  ◌≤◌, length, suc, Result, parse_usize, ◌+◌, ◌<◌, drop, ap, Option, sym, subst, ◌∙◌,
}

abbrev info : SessionInfo
info = record {
  src = record { ip = v4 1; port = 1 };
  dst = record { ip = v4 2; port = 80 };
  protocol = tcp;
}

abbrev accepted : Response
accepted = record { code = some 200; version = some 1; reason = some []; headers = [] }

abbrev refused : Response
refused = record {
  code = some 407;
  version = some 1;
  reason = some [];
  headers = (codes "Proxy-Authenticate", codes "Digest") ∷ (codes "Content-Length", codes "1") ∷ [];
}

abbrev reply_of : ℕ → Response
reply_of zero = refused
reply_of (suc k) = accepted

abbrev parse_reply : Bytes → Status
parse_reply (k ∷ b ∷ c ∷ bs) = complete 3 (reply_of k)
parse_reply _ = partial

abbrev size_of : Status → ℕ
size_of (complete n r) = n
size_of _ = 0

abbrev response_of : Status → Response
response_of (complete n r) = r
response_of _ = accepted

parse_reply-size :
    (bs : Bytes) (n : ℕ) (r : Response)
    → parse_reply bs ≡ complete n r
    → (n ≡ 3) × (3 ≤ length bs) × (k : ℕ) × (r ≡ reply_of k)
parse_reply-size (k ∷ b ∷ c ∷ bs) n r h =
    (sym (ap size_of h), omega arith, k, sym (ap response_of h))
parse_reply-size [] n r h = cc
parse_reply-size (a ∷ []) n r h = cc
parse_reply-size (a ∷ b ∷ []) n r h = cc

parse_reply-length :
    (bs : Bytes) (n : ℕ) (r : Response) → parse_reply bs ≡ complete n r → (0 < n) × (n ≤ length bs)
parse_reply-length bs n r h =
    let (a, b, j, e) = parse_reply-size bs n r h in (omega (arith, a), omega (arith, a, b))

abbrev crates : HttpCrates
crates = record {
  parse = parse_reply;
  DigestState = ℕ;
  stale = λ n. false;
  parse_challenge = λ bs. some 1;
  respond = λ n k host. (n + 1, some (n ∷ []));
  encode = λ bs. bs;
  is_utf8 = λ bs. true;
  socket_text = λ a. a.port ∷ [];
  number_text = λ n. n ∷ [];
  parse-length = parse_reply-length;
}

abbrev framed : Result HttpError (Option ℕ) → ℕ
framed (ok (some n)) = n
framed _ = 0

framing_small : (k version : ℕ) → framed (framing (λ bs. true) (reply_of k) version) ≤ 1
unfolding framing find_header content_length parse_usize
framing_small zero version = ground arith
framing_small (suc k) version = ground arith

replies-Fits : (buf : Bytes) → Fits crates buf
replies-Fits buf k len res version n p f =
    let (a, b, j, e) = parse_reply-size (drop k buf) len res p in
    let small : n ≤ 1 =
      subst (λ m. m ≤ 1) (ap (λ r. framed (framing (λ bs. true) r version)) (sym e) ∙ ap framed f)
        (framing_small j version) in
    omega (arith, a, small)

abbrev http_program : Unit {0}
unfolding new push_data state_change dispatch receive_headers receive_reply authenticate restart
    receive_rest relay challenge framing find_header content_length is_digest_scheme scan_headers
    send_tunnel_request request_head host send_auth_data basic_auth_header_value parse_usize
    connection_established
http_program = tt

abbrev proxy : SocketAddr
proxy = record { ip = v4 3; port = 3128 }

abbrev asking : HttpConnection crates
asking = record {
  server_addr = proxy;
  state = expect_response_headers;
  client_inbuf = [];
  server_inbuf = [];
  client_outbuf = [];
  server_outbuf = codes "CONNECT " ++ (80 ∷ codes " HTTP/1.1\r\nHost: ") ++ (80 ∷ codes "\r\n\r\n");
  crlf_state = 0;
  counter = 0;
  skip = 0;
  digest_state = none;
  before = false;
  credentials = none;
  info = info;
  domain_name = none;
}

made : new crates proxy info none none none ≡ ok asking
unfolding http_program
made = refl

abbrev asked : HttpConnection crates
asked = (push_data crates asking from_client (9 ∷ [])).0

-- A refusal with its body, the acceptance and two bytes from behind the proxy.
abbrev replies : Bytes
replies = 0 ∷ 10 ∷ 10 ∷ 33 ∷ 2 ∷ 10 ∷ 10 ∷ 7 ∷ 8 ∷ []

abbrev open_connection : HttpConnection crates
open_connection = (push_data crates asked from_server replies).0

tunnel_opens : (open_connection.state ≡ established) × (open_connection.client_outbuf ≡ 7 ∷ 8 ∷ [])
unfolding http_program
tunnel_opens = (refl, refl)

push_data-Ends_example :
    Moves
      (arrived from_server (queues crates asked) replies)
      (connection_established crates asked)
      (queues crates (push_data crates asked from_server replies).0)
      (connection_established crates (push_data crates asked from_server replies).0)
    × ((push_data crates asked from_server replies).1 ≢ err out_of_fuel)
push_data-Ends_example =
    push_data-Ends crates asked from_server replies
      (replies-Fits (receive crates from_server asked replies).server_inbuf)

-- A head of one line, with two bytes behind it.
push_data-Opens_example :
    Opens crates
      (receive crates from_server asking (head_of 72 (105 ∷ []) [] ++ (7 ∷ 8 ∷ [])))
      (7 ∷ 8 ∷ [])
      (push_data crates asking from_server (head_of 72 (105 ∷ []) [] ++ (7 ∷ 8 ∷ [])))
push_data-Opens_example =
    push_data-Opens crates asking 72 (105 ∷ []) [] (7 ∷ 8 ∷ []) 3 1 accepted refl refl refl refl
      (refl, tt) refl refl refl

Run-passes_example :
    Closed (handler crates) open_connection (9 ∷ []) replies []
    ⊎ Open (handler crates) open_connection (9 ∷ []) replies [] []
Run-passes_example =
    Run-passes crates proxy info none none none asking open_connection (9 ∷ []) replies [] [] made (
      server_pushed replies (replies-Fits (receive crates from_server asked replies).server_inbuf) (
        client_pushed (9 ∷ [])
          (replies-Fits (receive crates from_client asking (9 ∷ [])).server_inbuf) opened))

abbrev direct : NoProxyHandler
direct = NoProxy.new info none false

Run-transparent_example :
    ([] ++ (NoProxy.push_data direct from_server (1 ∷ 2 ∷ [])).client_outbuf ≡ 1 ∷ 2 ∷ [])
    × ([] ++ (NoProxy.push_data direct from_server (1 ∷ 2 ∷ [])).server_outbuf ≡ [])
Run-transparent_example =
    Run-transparent info none false (NoProxy.push_data direct from_server (1 ∷ 2 ∷ [])) []
      (1 ∷ 2 ∷ []) [] [] (server_pushed (1 ∷ 2 ∷ []) tt opened)
