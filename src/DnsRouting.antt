-- ===== src/DnsRouting.antt =====
-- dns_routing.rs: DNS over TCP, question by question: a question that the override claims is answered
-- by the physical resolver, and any other by the proxy's connection, which is opened when it is
-- needed. A write that fails ends the session like every other error, and is left out.
pub mod Questions
pub mod Routes
pub mod Fuel
use tun2proxy.Dns.Answers.{remove_ipv6_entries}
use tun2proxy.Dns.Frames.{frame}
use tun2proxy.Dns.{
  Hickory, DnsError, Message, Query, parse_data_to_dns_message, validate_dns_query,
  validate_dns_response,
}
use tun2proxy.Proxy.{Bytes}
use tun2proxy.Prelude.{
  zero, suc, true, false, none, some, [], ◌∷◌, ok, err, ◌+◌, ◌*◌, ◌++◌, ◌>>=◌, ◌>>◌, ℕ, Bool, List,
  Option, Result, ltb, length, take, drop, if◌then◌else◌, guard, not, ok_or,
}

pub data RoutingError : Type 0 where
  dns : DnsError → RoutingError
  end_of_stream cannot_connect too_long not_encoded unavailable out_of_fuel : RoutingError

abbrev pub lift : {A : Type 0} → Result DnsError A → Result RoutingError A
lift (ok a) = ok a
lift (err e) = err (dns e)

-- The trait. The operating system says which process asks, and answers without the proxy.
pub record DnsOverride : Type 0 where
  pub matches : Bytes → Result RoutingError Bool
  pub answer : Bytes → Bool → Result RoutingError Bytes

abbrev pub no_dns_override : DnsOverride
no_dns_override = record { matches = λ request. ok false; answer = λ request udp. err unavailable }

-- The proxy's connection: what was sent on it, and what it is going to give.
pub record Upstream : Type 0 where
  pub is_open : Bool
  pub sent : Bytes
  pub incoming : Bytes

-- One framed message at the front of a stream, or the end before it.
unfoldable pub read_frame : Bytes → Result RoutingError (Option (Bytes × Bytes))
read_frame [] = ok none
read_frame (b ∷ []) = err end_of_stream
read_frame (b ∷ c ∷ rest) =
    let len = b * 256 + c in
    if ltb (length rest) len then err end_of_stream else ok (some (take len rest, drop len rest))

unfoldable pub write_request : Bytes → Upstream → Upstream × Result RoutingError (Unit {0})
write_request request u =
    if ltb 65535 (length request)
    then (u, err too_long)
    else (record u { sent = u.sent ++ frame request }, ok tt)

-- `connects` says whether the proxy can be reached and its handshake succeeds.
unfoldable pub send : Bool → Bytes → Upstream → Upstream × Result RoutingError (Unit {0})
send connects request u =
    if u.is_open
    then write_request request u
    else if connects
    then write_request request (record u { is_open = true })
    else (u, err cannot_connect)

-- `read_u16` and `read_exact`
abbrev pub read_response : Bytes → Result RoutingError (Bytes × Bytes)
read_response stream = elim (read_frame stream) [
  | err e ↦ err e
  | ok none ↦ err end_of_stream
  | ok (some (response, rest)) ↦ ok (response, rest)
]

pub record Answered : Type 0 where
  pub request : Bytes
  pub is_direct : Bool
  pub message : Message
  pub written : Bytes

module _ (H : Hickory) (to_vec : Message → Option Bytes) where
  -- The response is one to the query.
  unfoldable pub checked : ℕ → Query → Bytes → Result RoutingError Bytes
  checked id question response = do
    message ← lift (parse_data_to_dns_message H response)
    lift (validate_dns_response H message id question)
    ok response

  unfoldable pub receive : ℕ → Query → Upstream → Upstream × Result RoutingError Bytes
  receive id question u = elim (read_response u.incoming) [
    | err e ↦ (u, err e)
    | ok (response, rest) ↦ (record u { incoming = rest }, checked id question response)
  ]

  -- The query that a request is, with its question.
  unfoldable pub question_of : Bytes → Result RoutingError (ℕ × Query)
  question_of request = do
    query ← lift (parse_data_to_dns_message H request)
    question ← lift (validate_dns_query query)
    ok (query.id, question)

  unfoldable pub exchange : Bool → Bytes → Upstream → Upstream × Result RoutingError Bytes
  exchange connects request u = elim (question_of request) [
    | err e ↦ (u, err e)
    | ok (id, question) ↦
        let (u', done) = send connects request u in
        elim done [ err e ↦ (u', err e) | ok written ↦ receive id question u' ]
  ]

  module _ (ipv6 : Bool) (resolver : DnsOverride) (connects : Bool) where
    -- What the client is given for a response.
    unfoldable pub answer_client :
        Bytes → Bool → Result RoutingError Bytes → Result RoutingError Answered
    answer_client request is_direct given = do
      response ← given
      parsed ← lift (parse_data_to_dns_message H response)
      let message = if ipv6 then parsed else remove_ipv6_entries parsed
      bytes ← ok_or (to_vec message) not_encoded
      guard (not (ltb 65535 (length bytes))) too_long
      ok (record {
        request = request;
        is_direct = is_direct;
        message = message;
        written = frame bytes;
      })

    unfoldable pub serve : Bytes → Upstream → Upstream × Result RoutingError Answered
    serve request u = elim (resolver.matches request) [
      | err e ↦ (u, err e)
      | ok true ↦ (u, answer_client request true (resolver.answer request false))
      | ok false ↦
          let (u', given) = exchange connects request u in (u', answer_client request false given)
    ]

    -- The requests of a stream, until it ends or something fails.
    unfoldable pub tcp :
        ℕ → Bytes → Upstream → Upstream × List Answered × Result RoutingError (Unit {0})
    tcp zero stream u = (u, [], err out_of_fuel)
    tcp (suc fuel) stream u = elim (read_frame stream) [
      | err e ↦ (u, [], err e)
      | ok none ↦ (u, [], ok tt)
      | ok (some (request, rest)) ↦
          let (u', served) = serve request u in
          elim served [
            | err e ↦ (u', [], err e)
            | ok answered ↦
                let (last, later, ending) = tcp fuel rest u' in (last, answered ∷ later, ending)
          ]
    ]
