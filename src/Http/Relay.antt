-- ===== src/Http/Relay.antt =====
-- http.rs: which bytes a step of the client reads, holds back and passes on, and the recursion of
-- `state_change`.
use tun2proxy.Http.Requests.{send_tunnel_request-Requests, challenge_ends, framing_ends}
use tun2proxy.Tunnel.Steps.{Moves-after, Holds-reads}
use tun2proxy.Tunnel.{Queues, Moves}
use tun2proxy.Proxy.{Bytes}
use tun2proxy.Prelude.{
  refl, true, false, none, some, inl, inr, [], ◌∷◌, ◌≡◌, ◌≤◌, ◌⊎◌, arith, ok, err, ℕ, drop, ◌*◌,
  Result, length, ◌<◌, ◌+◌, if◌then◌else◌, ◌^◌, ◌≢◌, eqb, Option-cases, Result-cases, ◌%◌,
  Bool-cases, ◌∙◌, ap, sym, not, ltb, length-drop, drop-drop,
}
use tun2proxy.Http.{
  send_request, expect_response_headers, expect_response, reset, established, Status, HttpState,
  HttpCrates, Bytes, HttpConnection, ℕ, drop, length, Response, Result, Outcome, HttpError, framing,
  connection_established, receive_reply, eqb, authenticate, restart, out_of_fuel, is_established,
  no_status_code, challenge, no_version, send_tunnel_request, not, no_reason, unexpected_status,
  receive_headers, receive_rest, skip_reply, scan_headers, ltb, bad_response,
}
use tun2proxy.Http.Reply.{
  partial, invalid, complete, Status, Response, framing, HttpError, out_of_fuel, no_status_code,
  no_version, no_reason, unexpected_status, scan_headers, bad_response,
}

pub Status-cases :
    (s : Status) → (s ≡ partial) ⊎ (s ≡ invalid) ⊎ ((n : ℕ) × (r : Response) × (s ≡ complete n r))
Status-cases partial = inl refl
Status-cases invalid = inr (inl refl)
Status-cases (complete n r) = inr (inr (n, r, refl))

abbrev error_of : {A : Type 0} → Result HttpError A → HttpError
error_of (ok a) = bad_response
error_of (err e) = e

error_moved :
    {A : Type 0} {r : Result HttpError A} (e : HttpError)
    → r ≡ err e
    → r ≢ err out_of_fuel
    → (x : Result HttpError Unit) → x ≡ err e
    → x ≢ err out_of_fuel
error_moved e p never x q y = never (p ∙ ap err (ap error_of (sym q ∙ y)))

drop_all : (bs : Bytes) → drop (length bs) bs ≡ []
drop_all [] = refl
drop_all (b ∷ bs) = drop_all bs

-- How many calls a state can still make, from the length of what the server has sent.
abbrev pub rank : HttpState → ℕ → ℕ → ℕ
rank send_request skip len = 0
rank expect_response_headers skip len = 2 * len + 1
rank expect_response skip len = if eqb skip 0 then 2 * len + 2 else 2 * len
rank reset skip len = 2 * len + 2
rank established skip len = 0

module _ (E : HttpCrates) where
  abbrev pub queues : HttpConnection E → Queues
  queues c = record {
    client_inbuf = c.client_inbuf;
    server_inbuf = c.server_inbuf;
    client_outbuf = c.client_outbuf;
    server_outbuf = c.server_outbuf;
  }

  -- A step of the contract, which ends by itself.
  abbrev pub Ends : HttpConnection E → Outcome E → Type 0
  Ends c o =
      Moves (queues c) (connection_established E c) (queues o.0) (connection_established E o.0)
      × (o.1 ≢ err out_of_fuel)

  abbrev pub rank_of : HttpConnection E → ℕ
  rank_of c = rank c.state c.skip (length c.server_inbuf)

  -- No reply in the bytes names a length that wraps when that of its head is added.
  abbrev pub Fits : Bytes → Type 0
  Fits buf =
      (k len : ℕ) (res : Response) (version n : ℕ)
      → E.parse (drop k buf) ≡ complete len res
      → framing E.is_utf8 res version ≡ ok (some n)
      → n + len < 2 ^ 64

  Fits-drop : (buf buf' : Bytes) (m : ℕ) → buf' ≡ drop m buf → Fits buf → Fits buf'
  Fits-drop buf buf' m e fits k len res version n p f =
      fits (m + k) len res version n
        (ap E.parse (sym (drop-drop k m buf) ∙ ap (drop k) (sym e)) ∙ p) f

  -- A call that stops, with `n` bytes of the server read.
  pub stops :
      (c c' : HttpConnection E) (r : Result HttpError Unit) (n : ℕ)
      → connection_established E c ≡ false
      → connection_established E c' ≡ false
      → c'.client_inbuf ≡ c.client_inbuf
      → c'.client_outbuf ≡ c.client_outbuf
      → c'.server_inbuf ≡ drop n c.server_inbuf
      → r ≢ err out_of_fuel
      → Ends c (c', r)
  stops c c' r n a b d e f g = (Holds-reads (queues c) (queues c') _ _ n a b d e f, g)

  module _ (fuel : ℕ) (go_on : HttpConnection E → Outcome E)
      (ih : (c : HttpConnection E) → Fits c.server_inbuf → rank_of c < fuel → Ends c (go_on c))
      (c : HttpConnection E) (fits : Fits c.server_inbuf)
      (closed_now : connection_established E c ≡ false) where
    pub goes_on :
        (c1 : HttpConnection E) (n : ℕ)
        → rank_of c1 < fuel
        → c1.client_inbuf ≡ c.client_inbuf
        → c1.client_outbuf ≡ c.client_outbuf
        → c1.server_inbuf ≡ drop n c.server_inbuf
        → Ends c (go_on c1)
    goes_on c1 n lt a b e =
        let (m, end) = ih c1 (Fits-drop c.server_inbuf c1.server_inbuf n e fits) lt in
        (Moves-after (queues c) (queues c1) (queues (go_on c1).0) _ _ _ n closed_now a b e m, end)

    restart-Ends :
        (c0 : HttpConnection E)
        → connection_established E c0 ≡ false
        → c0.client_inbuf ≡ c.client_inbuf
        → c0.client_outbuf ≡ c.client_outbuf
        → Ends c (restart E c0)
    unfolding restart connection_established is_established
    restart-Ends c0 closed a b =
        let c1 = record c0 { server_inbuf = []; server_outbuf = [] } in
        let q = send_tunnel_request-Requests E c1 in
        elim (Result-cases (send_tunnel_request E c1).1) [
          | inl (u, e) ↦
              rw (e, restart)
                (stops c (record (send_tunnel_request E c1).0 { state = reset }) (ok tt)
                  (length c.server_inbuf) closed_now refl (q.client_inbuf ∙ a) (q.client_outbuf ∙ b)
                  (q.server_inbuf ∙ sym (drop_all c.server_inbuf)) (λ x. cc))
          | inr (x, e) ↦
              rw (e, restart)
                (stops c (send_tunnel_request E c1).0 (err x) (length c.server_inbuf) closed_now
                  (ap (is_established E) q.state ∙ closed) (q.client_inbuf ∙ a)
                  (q.client_outbuf ∙ b) (q.server_inbuf ∙ sym (drop_all c.server_inbuf))
                  (λ f. q.ends (e ∙ f)))
        ]

    -- A 407 reply of which nothing has been dropped.
    authenticate-Ends :
        (c0 : HttpConnection E) (len : ℕ) (res : Response) (version : ℕ)
        → connection_established E c0 ≡ false
        → c0.client_inbuf ≡ c.client_inbuf
        → c0.client_outbuf ≡ c.client_outbuf
        → c0.server_inbuf ≡ c.server_inbuf
        → E.parse c0.server_inbuf ≡ complete len res
        → 2 * length c.server_inbuf < fuel
        → Ends c (authenticate E go_on c0 len res version)
    unfolding authenticate connection_established
    authenticate-Ends c0 len res version closed a b d parsed lt =
        elim (Result-cases (challenge E c0.before res)) [
          | inr (x, e) ↦
              rw (e, authenticate)
                (stops c c0 (err x) 0 closed_now closed a b d
                  (error_moved x e (challenge_ends E c0.before res) (err x) refl))
          | inl (st, e) ↦
              let c1 = record c0 { digest_state = some st; before = true } in
              elim (Result-cases (framing E.is_utf8 res version)) [
                | inr (x, f) ↦
                    rw (e, f, authenticate)
                      (stops c c1 (err x) 0 closed_now closed a b d
                        (error_moved x f (framing_ends E.is_utf8 res version) (err x) refl))
                | inl (none, f) ↦ rw (e, f, authenticate) (restart-Ends c1 closed a b)
                | inl (some n, f) ↦
                    rw (e, f, authenticate)
                      (goes_on (record c1 { state = expect_response; skip = (n + len) % 2 ^ 64 }) 0
                        (ground (
                          arith,
                          fits 0 len res version n (ap E.parse (sym d) ∙ parsed) f,
                          (E.parse-length c0.server_inbuf len res parsed).0,
                          ap length d,
                        ))
                        a b d)
              ]
        ]

    reply-Ends :
        (c0 : HttpConnection E) (header_size len : ℕ) (res : Response)
        → connection_established E c0 ≡ false
        → c0.client_inbuf ≡ c.client_inbuf
        → c0.client_outbuf ≡ c.client_outbuf
        → c0.server_inbuf ≡ c.server_inbuf
        → E.parse c0.server_inbuf ≡ complete len res
        → 2 * length c.server_inbuf < fuel
        → Ends c (receive_reply E go_on c0 header_size len res)
    unfolding receive_reply
    reply-Ends c0 header_size len res closed a b d parsed lt = elim (Option-cases res.code) [
      | inl e ↦
          rw (e, receive_reply)
            (stops c c0 (err no_status_code) 0 closed_now closed a b d (λ x. cc))
      | inr (code, e) ↦ elim (Option-cases res.version) [
        | inl f ↦
            rw (e, f, receive_reply)
              (stops c c0 (err no_version) 0 closed_now closed a b d (λ x. cc))
        | inr (version, f) ↦ elim (Bool-cases (eqb code 200)) [
          | inl good ↦
              rw (e, f, receive_reply, good)
                (goes_on
                  (record c0 {
                    state = established;
                    server_inbuf = drop header_size c0.server_inbuf;
                  })
                  header_size (omega (arith, lt)) a b (ap (drop header_size) d))
          | inr bad ↦ elim (Bool-cases (not (eqb code 407))) [
            | inr asked ↦
                rw (e, f, receive_reply, bad, asked)
                  (authenticate-Ends c0 len res version closed a b d parsed lt)
            | inl other ↦ elim (Option-cases res.reason) [
              | inl g ↦
                  rw (e, f, receive_reply, bad, other, g)
                    (stops c c0 (err no_reason) 0 closed_now closed a b d (λ x. cc))
              | inr (reason, g) ↦
                  rw (e, f, receive_reply, bad, other, g)
                    (stops c c0 (err unexpected_status) 0 closed_now closed a b d (λ x. cc))
            ]
          ]
        ]
      ]
    ]

    pub headers-Ends : 2 * length c.server_inbuf < fuel → Ends c (receive_headers E go_on c)
    unfolding receive_headers connection_established
    headers-Ends lt =
        let x = scan_headers c.counter c.crlf_state (drop c.counter c.server_inbuf) in
        let c0 = record c { counter = 0; crlf_state = 0 } in
        elim (Bool-cases (not (eqb x.1 2))) [
          | inl more ↦ rw more (
              stops c (record c { counter = x.0; crlf_state = x.1 }) (ok tt) 0 closed_now closed_now
                refl refl refl (λ y. cc))
          | inr found ↦ elim (Status-cases (E.parse c.server_inbuf)) [
            | inl e ↦
                rw (found, e, receive_headers)
                  (stops c c0 (ok tt) 0 closed_now closed_now refl refl refl (λ y. cc))
            | inr (inl e) ↦
                rw (found, e, receive_headers)
                  (stops c c0 (err bad_response) 0 closed_now closed_now refl refl refl (λ y. cc))
            | inr (inr (len, res, e)) ↦
                rw (found, e, receive_headers)
                  (reply-Ends c0 x.0 len res closed_now refl refl refl e lt)
          ]
        ]

    pub rest-Ends :
        rank expect_response c.skip (length c.server_inbuf) ≤ fuel → Ends c (receive_rest E go_on c)
    unfolding receive_rest connection_established
    rest-Ends lt =
        let c1 = skip_reply E c in
        let cnt = if ltb c.skip (length c.server_inbuf) then c.skip else length c.server_inbuf in
        let q = send_tunnel_request-Requests E c1 in
        elim (Bool-cases (eqb c1.skip 0)) [
          | inr more ↦
              rw more (stops c c1 (ok tt) cnt closed_now closed_now refl refl refl (λ y. cc))
          | inl done ↦ elim (Result-cases (send_tunnel_request E c1).1) [
            | inr (x, e) ↦
                rw (done, e, receive_rest)
                  (stops c (send_tunnel_request E c1).0 (err x) cnt closed_now
                    (ap (is_established E) q.state ∙ closed_now) q.client_inbuf q.client_outbuf
                    q.server_inbuf (λ y. q.ends (e ∙ y)))
            | inl (u, e) ↦
                rw (done, e, receive_rest)
                  (goes_on (record (send_tunnel_request E c1).0 { state = expect_response_headers })
                    cnt
                    (ground
                      (arith, lt, done, ap length q.server_inbuf, length-drop cnt c.server_inbuf))
                    q.client_inbuf q.client_outbuf q.server_inbuf)
          ]
        ]
