-- ===== src/DnsRouting/Questions.antt =====
-- dns_routing.rs: what the client is given for a question, by either route, and what is sent to the
-- proxy.
use tun2proxy.DnsRouting.{
  RoutingError, DnsOverride, Upstream, Answered, send, read_response, checked, receive, question_of,
  exchange, answer_client, serve, write_request, cannot_connect, read_frame, drop, take,
}
use tun2proxy.Dns.Answers.{remove_ipv6_entries}
use tun2proxy.Dns.Frames.{frame}
use tun2proxy.Dns.{Hickory, Message, Query, parse_data_to_dns_message, validate_dns_response}
use tun2proxy.Proxy.{Bytes}
use tun2proxy.Prelude.{
  ◌∷◌, [], ◌++◌, ◌*◌, ◌+◌, ◌∙◌, refl, true, false, some, inl, inr, ok, err, arith, ◌≡◌, ap, sym, ℕ,
  Bool, Option, Result, ltb, length, if◌then◌else◌, not, Bool-cases, Option-cases, Result-cases,
  subst, drop, take, take-append-drop,
}

-- A framed response: its length in two bytes, and it stands behind them.
read_response_lem :
    (stream response rest : Bytes)
    → read_response stream ≡ ok (response, rest)
    → drop 2 stream ≡ response ++ rest
unfolding read_frame
read_response_lem [] response rest h = cc
read_response_lem (b ∷ []) response rest h = cc
read_response_lem (b ∷ c ∷ bs) response rest h = elim (Bool-cases (ltb (length bs) (b * 256 + c))) [
  | inl few ↦ ground (arith, (rw (few, read_response, read_frame) at h))
  | inr there ↦
      let e : ok (take (b * 256 + c) bs, drop (b * 256 + c) bs) ≡ ok (response, rest) =
        rw (there, read_response, read_frame) at h in
      let first : take (b * 256 + c) bs ≡ response = cc in
      let last : drop (b * 256 + c) bs ≡ rest = cc in
      sym (take-append-drop (b * 256 + c) bs) ∙ rw (first, last) refl
]

either-incoming :
    (b : Bool) (incoming : Bytes) (x y : Upstream × Result RoutingError (Unit {0}))
    → x.0.incoming ≡ incoming
    → y.0.incoming ≡ incoming
    → (if b then x else y).0.incoming ≡ incoming
either-incoming true incoming x y e f = e
either-incoming false incoming x y e f = f

write_request-incoming :
    (request : Bytes) (u : Upstream) → (write_request request u).0.incoming ≡ u.incoming
unfolding write_request
write_request-incoming request u = either-incoming _ u.incoming _ _ refl refl

-- Sending takes nothing from what the proxy gives.
send-incoming :
    (connects : Bool) (request : Bytes) (u : Upstream)
    → (send connects request u).0.incoming ≡ u.incoming
unfolding send
send-incoming connects request u =
    let opened : Upstream = record u { is_open = true } in
    either-incoming u.is_open u.incoming (write_request request u)
      (if connects then write_request request opened else (u, err cannot_connect))
      (write_request-incoming request u)
      (either-incoming connects u.incoming (write_request request opened) (u, err cannot_connect)
        (write_request-incoming request opened) refl)

module _ (H : Hickory) (to_vec : Message → Option Bytes) (ipv6 : Bool) where
  abbrev pub filtered : Message → Message
  filtered message = if ipv6 then message else remove_ipv6_entries message

  -- The response is one to the request's question.
  pub record Valid (request response : Bytes) (message : Message) : Type 0 where
    pub id : ℕ
    pub question : Query
    pub asked : question_of H to_vec request ≡ ok (id, question)
    pub parsed : parse_data_to_dns_message H response ≡ ok message
    pub valid : validate_dns_response H message id question ≡ ok tt

  checked-Valid :
      (request response response' : Bytes) (id : ℕ) (question : Query)
      → question_of H to_vec request ≡ ok (id, question)
      → checked H to_vec id question response ≡ ok response'
      → (response ≡ response') × ((m : Message) × Valid request response' m)
  unfolding checked
  checked-Valid request response response' id question asked h =
      elim (Result-cases (parse_data_to_dns_message H response)) [
        | inr (e, f) ↦ ground (arith, (rw (f, checked) at h))
        | inl (m, f) ↦ elim (Result-cases (validate_dns_response H m id question)) [
          | inr (e, g) ↦ ground (arith, (rw (f, g, checked) at h))
          | inl (u, g) ↦
              let same : response ≡ response' = cc (rw (f, g, checked) at h) in
              (
                same,
                (
                  m,
                  record {
                    id = id;
                    question = question;
                    asked = asked;
                    parsed = subst (λ r. parse_data_to_dns_message H r ≡ ok m) same f;
                    valid = g;
                  },
                ),
              )
        ]
      ]

  exchange-Valid :
      (connects : Bool) (request response : Bytes) (u : Upstream)
      → (exchange H to_vec connects request u).1 ≡ ok response
      → ((m : Message) × Valid request response m)
        × (drop 2 u.incoming ≡ response ++ (exchange H to_vec connects request u).0.incoming)
  unfolding exchange receive
  exchange-Valid connects request response u h =
      elim (Result-cases (question_of H to_vec request)) [
        | inr (e, f) ↦ ground (arith, (rw (f, exchange) at h))
        | inl ((id, question), f) ↦ elim (Result-cases (send connects request u).1) [
          | inr (e, g) ↦ ground (arith, (rw (f, g, exchange) at h))
          | inl (done, g) ↦
              elim (Result-cases (read_response (send connects request u).0.incoming)) [
                | inr (e, k) ↦ ground (arith, (rw (f, g, k, exchange, receive) at h))
                | inl ((given, rest), k) ↦
                    let (same, valid) =
                      checked-Valid request given response id question f
                        (rw (f, g, k, exchange, receive) at h) in
                    (
                      valid,
                      ap (drop 2) (sym (send-incoming connects request u))
                          ∙ read_response_lem _ given rest k
                          ∙ rw (f, g, k, exchange, receive) (ap (λ z. z ++ rest) same),
                    )
              ]
        ]
      ]

  -- What is made of a response.
  answer_client_lem :
      (resolver : DnsOverride) (connects : Bool) (request : Bytes) (is_direct : Bool)
      (given : Result RoutingError Bytes) (a : Answered)
      → answer_client H to_vec ipv6 resolver connects request is_direct given ≡ ok a
      → (response : Bytes) × (m : Message) × (bytes : Bytes) × (given ≡ ok response)
        × (parse_data_to_dns_message H response ≡ ok m)
        × (to_vec (filtered m) ≡ some bytes)
        × (a ≡ record {
          request = request;
          is_direct = is_direct;
          message = filtered m;
          written = frame bytes;
        })
  unfolding answer_client
  answer_client_lem resolver connects request is_direct (err e) a h = ground (arith, h)
  answer_client_lem resolver connects request is_direct (ok response) a h =
      elim (Result-cases (parse_data_to_dns_message H response)) [
        | inr (e, f) ↦ ground (arith, (rw (f, answer_client) at h))
        | inl (m, f) ↦ elim (Option-cases (to_vec (filtered m))) [
          | inl g ↦ ground (arith, (rw (f, g, answer_client) at h))
          | inr (bytes, g) ↦ elim (Bool-cases (not (ltb 65535 (length bytes)))) [
            | inr k ↦ ground (arith, (rw (f, g, k, answer_client) at h))
            | inl k ↦
                let made : Answered = record {
                  request = request;
                  is_direct = is_direct;
                  message = filtered m;
                  written = frame bytes;
                } in
                let e : made ≡ a = cc (rw (f, g, k, answer_client) at h) in
                (response, m, bytes, refl, f, g, sym e)
          ]
        ]
      ]

  -- Where an answer comes from: the physical resolver, for a question that the override claims, or
  -- the proxy, for any other, with a valid response to the question. The proxy's stream goes from
  -- `incoming` to `left`: a response is what stands in it behind two bytes of length.
  pub data IsRouted (resolver : DnsOverride) (incoming left : Bytes) (a : Answered) : Type 0 where
    direct :
        (response : Bytes) (m : Message)
        → resolver.matches a.request ≡ ok true
        → resolver.answer a.request false ≡ ok response
        → parse_data_to_dns_message H response ≡ ok m
        → a.message ≡ filtered m
        → left ≡ incoming
        → IsRouted resolver incoming left a
    proxied :
        (response : Bytes) (m : Message)
        → resolver.matches a.request ≡ ok false
        → Valid a.request response m
        → a.message ≡ filtered m
        → drop 2 incoming ≡ response ++ left
        → IsRouted resolver incoming left a

  pub serve-IsRouted :
      (resolver : DnsOverride) (connects : Bool) (request : Bytes) (u : Upstream) (a : Answered)
      → (serve H to_vec ipv6 resolver connects request u).1 ≡ ok a
      → IsRouted resolver u.incoming (serve H to_vec ipv6 resolver connects request u).0.incoming a
        × (a.request ≡ request)
  unfolding serve
  serve-IsRouted resolver connects request u a h = elim (Result-cases (resolver.matches request)) [
    | inr (e, f) ↦ ground (arith, (rw (f, serve) at h))
    | inl (true, f) ↦
        let (response, m, bytes, given, parsed, encoded, e) =
          answer_client_lem resolver connects request true (resolver.answer request false) a
            (rw (f, serve) at h) in
        (
          subst
              (IsRouted resolver u.incoming
                (serve H to_vec ipv6 resolver connects request u).0.incoming)
              (sym e) (direct response m f given parsed refl (rw (f, serve) refl)),
          ap (λ x. x.request) e,
        )
    | inl (false, f) ↦
        let (response, m, bytes, given, parsed, encoded, e) =
          answer_client_lem resolver connects request false (exchange H to_vec connects request u).1
            a (rw (f, serve) at h) in
        let ((m', v), taken) = exchange-Valid connects request response u given in
        let same : m' ≡ m = ground (arith, v.parsed, parsed) in
        (
          subst
              (IsRouted resolver u.incoming
                (serve H to_vec ipv6 resolver connects request u).0.incoming)
              (sym e)
              (proxied response m f (subst (Valid request response) same v) refl
                (rw (f, serve) taken)),
          ap (λ x. x.request) e,
        )
  ]
