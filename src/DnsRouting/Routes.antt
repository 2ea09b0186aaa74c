-- ===== src/DnsRouting/Routes.antt =====
-- dns_routing.rs: a whole session of DNS over TCP: every answer, what the proxy gets to see, and the
-- end of the loop.
use tun2proxy.DnsRouting.Questions.{IsRouted, serve-IsRouted}
use tun2proxy.DnsRouting.{
  RoutingError, DnsOverride, Upstream, Answered, read_frame, write_request, send, read_response,
  receive, question_of, exchange, serve, tcp, cannot_connect,
}
use tun2proxy.Dns.Frames.{frame}
use tun2proxy.Dns.{Hickory, Message, Query}
use tun2proxy.Proxy.{Bytes}
use tun2proxy.Prelude.{
  refl, zero, suc, true, false, none, some, inl, inr, [], ◌∷◌, ok, err, ◌≡◌, ◌++◌, ◌∙◌, ap, sym, ℕ,
  Bool, List, Option, Result, ltb, length, if◌then◌else◌, Bool-cases, Result-cases, append-nil,
  append_assoc, subst,
}

-- The requests, each in its frame.
abbrev pub frames_of : List Bytes → Bytes
frames_of [] = []
frames_of (request ∷ requests) = frame request ++ frames_of requests

frames_of-append : (xs ys : List Bytes) → frames_of (xs ++ ys) ≡ frames_of xs ++ frames_of ys
frames_of-append [] ys = refl
frames_of-append (x ∷ xs) ys =
    ap (λ z. frame x ++ z) (frames_of-append xs ys)
    ∙ sym (append_assoc (frame x) (frames_of xs) (frames_of ys))

module _ (resolver : DnsOverride) where
  -- No request of the list is one that the override claims.
  unfoldable pub AllForProxy : List Bytes → Type 0
  AllForProxy [] = Unit
  AllForProxy (request ∷ requests) = (resolver.matches request ≡ ok false) × AllForProxy requests

  AllForProxy-append :
      (xs ys : List Bytes) → AllForProxy xs → AllForProxy ys → AllForProxy (xs ++ ys)
  unfolding AllForProxy
  AllForProxy-append [] ys p q = q
  AllForProxy-append (x ∷ xs) ys (p, ps) q = (p, AllForProxy-append xs ys ps q)

  -- What is sent after `before` is the frames of requests that the override does not claim.
  unfoldable pub SendsOnly : Bytes → Bytes → Type 0
  SendsOnly before after =
      (requests : List Bytes) × (after ≡ before ++ frames_of requests) × AllForProxy requests

  SendsOnly-same : (before after : Bytes) → after ≡ before → SendsOnly before after
  unfolding SendsOnly AllForProxy
  SendsOnly-same before after e = ([], e ∙ sym (append-nil before), tt)

  SendsOnly-trans : (a b c : Bytes) → SendsOnly a b → SendsOnly b c → SendsOnly a c
  unfolding SendsOnly
  SendsOnly-trans a b c (xs, e, p) (ys, f, q) = (
    xs ++ ys,
    f
        ∙ ap (λ z. z ++ frames_of ys) e
        ∙ append_assoc a (frames_of xs) (frames_of ys)
        ∙ ap (λ z. a ++ z) (sym (frames_of-append xs ys)),
    AllForProxy-append xs ys p q,
  )

  write_request-SendsOnly :
      (request : Bytes) (u : Upstream)
      → resolver.matches request ≡ ok false
      → SendsOnly u.sent (write_request request u).0.sent
  unfolding write_request SendsOnly AllForProxy
  write_request-SendsOnly request u m = elim (Bool-cases (ltb 65535 (length request))) [
    | inl long ↦ rw (long, write_request) (SendsOnly-same u.sent u.sent refl)
    | inr fits ↦
        rw (fits, write_request)
          (request ∷ [], ap (λ z. u.sent ++ z) (sym (append-nil (frame request))), (m, tt))
  ]

  -- Either of two outcomes.
  either-SendsOnly :
      (b : Bool) (before : Bytes) (x y : Upstream × Result RoutingError (Unit {0}))
      → SendsOnly before x.0.sent
      → SendsOnly before y.0.sent
      → SendsOnly before (if b then x else y).0.sent
  either-SendsOnly true before x y p q = p
  either-SendsOnly false before x y p q = q

  send-SendsOnly :
      (connects : Bool) (request : Bytes) (u : Upstream)
      → resolver.matches request ≡ ok false
      → SendsOnly u.sent (send connects request u).0.sent
  unfolding send
  send-SendsOnly connects request u m =
      let opened : Upstream = record u { is_open = true } in
      either-SendsOnly u.is_open u.sent (write_request request u)
        (if connects then write_request request opened else (u, err cannot_connect))
        (write_request-SendsOnly request u m)
        (either-SendsOnly connects u.sent (write_request request opened) (u, err cannot_connect)
          (write_request-SendsOnly request opened m) (SendsOnly-same u.sent u.sent refl))

module _ (H : Hickory) (to_vec : Message → Option Bytes) (ipv6 : Bool) (resolver : DnsOverride)
    (connects : Bool) where
  receive-sent :
      (id : ℕ) (question : Query) (u : Upstream) → (receive H to_vec id question u).0.sent ≡ u.sent
  unfolding receive
  receive-sent id question u = elim (Result-cases (read_response u.incoming)) [
    | inr (e, f) ↦ rw (f, receive) refl
    | inl ((response, rest), f) ↦ rw (f, receive) refl
  ]

  exchange-SendsOnly :
      (request : Bytes) (u : Upstream)
      → resolver.matches request ≡ ok false
      → SendsOnly resolver u.sent (exchange H to_vec connects request u).0.sent
  unfolding exchange
  exchange-SendsOnly request u m = elim (Result-cases (question_of H to_vec request)) [
    | inr (e, f) ↦ rw (f, exchange) (SendsOnly-same resolver u.sent u.sent refl)
    | inl ((id, question), f) ↦
        let sends = send-SendsOnly resolver connects request u m in
        elim (Result-cases (send connects request u).1) [
          | inr (e, g) ↦ rw (f, g, exchange) sends
          | inl (done, g) ↦
              rw (f, g, exchange)
                (subst (SendsOnly resolver u.sent)
                  (sym (receive-sent id question (send connects request u).0)) sends)
        ]
  ]

  serve-SendsOnly :
      (request : Bytes) (u : Upstream)
      → SendsOnly resolver u.sent (serve H to_vec ipv6 resolver connects request u).0.sent
  unfolding serve
  serve-SendsOnly request u = elim (Result-cases (resolver.matches request)) [
    | inr (e, f) ↦ rw (f, serve) (SendsOnly-same resolver u.sent u.sent refl)
    | inl (true, f) ↦ rw (f, serve) (SendsOnly-same resolver u.sent u.sent refl)
    | inl (false, f) ↦ rw (f, serve) (exchange-SendsOnly request u f)
  ]

  -- Every answer of a session, with the proxy's stream before the first.
  pub AllRouted : Bytes → List Answered → Type 0
  AllRouted incoming [] = Unit
  AllRouted incoming (a ∷ answers) =
      (left : Bytes) × IsRouted H to_vec ipv6 resolver incoming left a × AllRouted left answers

  tcp-AllRouted :
      (fuel : ℕ) (stream : Bytes) (u : Upstream)
      → AllRouted u.incoming (tcp H to_vec ipv6 resolver connects fuel stream u).1
  unfolding tcp AllRouted
  tcp-AllRouted zero stream u = tt
  tcp-AllRouted (suc fuel) stream u = elim (Result-cases (read_frame stream)) [
    | inr (e, f) ↦ rw (f, tcp) tt
    | inl (none, f) ↦ rw (f, tcp) tt
    | inl (some (request, rest), f) ↦
        let out = serve H to_vec ipv6 resolver connects request u in
        elim (Result-cases out.1) [
          | inr (e, g) ↦ rw (f, g, tcp) tt
          | inl (a, g) ↦
              rw (f, g, tcp)
                (
                  out.0.incoming,
                  (serve-IsRouted H to_vec ipv6 resolver connects request u a g).0,
                  tcp-AllRouted fuel rest out.0,
                )
        ]
  ]

  tcp-SendsOnly :
      (fuel : ℕ) (stream : Bytes) (u : Upstream)
      → SendsOnly resolver u.sent (tcp H to_vec ipv6 resolver connects fuel stream u).0.sent
  unfolding tcp
  tcp-SendsOnly zero stream u = SendsOnly-same resolver u.sent u.sent refl
  tcp-SendsOnly (suc fuel) stream u = elim (Result-cases (read_frame stream)) [
    | inr (e, f) ↦ rw (f, tcp) (SendsOnly-same resolver u.sent u.sent refl)
    | inl (none, f) ↦ rw (f, tcp) (SendsOnly-same resolver u.sent u.sent refl)
    | inl (some (request, rest), f) ↦
        let out = serve H to_vec ipv6 resolver connects request u in
        let sends = serve-SendsOnly request u in
        elim (Result-cases out.1) [
          | inr (e, g) ↦ rw (f, g, tcp) sends
          | inl (a, g) ↦
              rw (f, g, tcp)
                (SendsOnly-trans resolver u.sent out.0.sent _ sends (tcp-SendsOnly fuel rest out.0))
        ]
  ]

  -- In every session of DNS over TCP each answer comes from the physical resolver, for a question
  -- that the override claims, or from the proxy, for a question that it does not claim, with the
  -- response that stands next in the proxy's stream and is valid for that question; and what is sent
  -- to the proxy is the frames of questions that the override does not claim, and nothing else.
  pub tcp_routes :
      (fuel : ℕ) (stream : Bytes) (u : Upstream)
      → AllRouted u.incoming (tcp H to_vec ipv6 resolver connects fuel stream u).1
        × SendsOnly resolver u.sent (tcp H to_vec ipv6 resolver connects fuel stream u).0.sent
  tcp_routes fuel stream u = (tcp-AllRouted fuel stream u, tcp-SendsOnly fuel stream u)
