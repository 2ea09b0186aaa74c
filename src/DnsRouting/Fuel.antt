-- ===== src/DnsRouting/Fuel.antt =====
-- dns_routing.rs: the loop over the requests ends.
use tun2proxy.DnsRouting.{Answered, RoutingError, DnsOverride, Upstream, read_frame, serve, tcp}
use tun2proxy.Dns.{Hickory, Message}
use tun2proxy.Proxy.{Bytes}
use tun2proxy.Prelude.{
  err, Result, List, zero, suc, none, some, inl, inr, [], ◌∷◌, ok, arith, ◌+◌, ◌*◌, ◌≡◌, ◌<◌, ℕ,
  Bool, Option, ltb, length, drop, Bool-cases, Result-cases, length-drop, subst,
}

read_frame-shorter :
    (stream request rest : Bytes)
    → read_frame stream ≡ ok (some (request, rest))
    → length rest < length stream
unfolding read_frame
read_frame-shorter [] request rest h = ground (arith, h)
read_frame-shorter (b ∷ []) request rest h = ground (arith, h)
read_frame-shorter (b ∷ c ∷ bs) request rest h =
    let len = b * 256 + c in
    elim (Bool-cases (ltb (length bs) len)) [
      | inl few ↦ ground (arith, (rw (few, read_frame) at h))
      | inr there ↦
          let e : drop len bs ≡ rest = ground (arith, (rw (there, read_frame) at h)) in
          subst (λ r. length r < suc (suc (length bs))) e (omega (arith, length-drop len bs))
    ]

module _ (H : Hickory) (to_vec : Message → Option Bytes) (ipv6 : Bool) (resolver : DnsOverride)
    (connects : Bool) where
  -- A session that ends: at the end of the stream, at a broken frame, or at a request that is not
  -- served; each request before was served, in order.
  pub data Session
      : Bytes → Upstream → Upstream × List Answered × Result RoutingError (Unit {0}) → Type 0 where
    at_end :
        {stream : Bytes} {u : Upstream}
        → read_frame stream ≡ ok none
        → Session stream u (u, [], ok tt)
    at_broken_frame :
        {stream : Bytes} {u : Upstream} {e : RoutingError}
        → read_frame stream ≡ err e
        → Session stream u (u, [], err e)
    at_request :
        {stream request rest : Bytes} {u : Upstream} {e : RoutingError}
        → read_frame stream ≡ ok (some (request, rest))
        → (serve H to_vec ipv6 resolver connects request u).1 ≡ err e
        → Session stream u ((serve H to_vec ipv6 resolver connects request u).0, [], err e)
    after_request :
        {stream request rest : Bytes} {u last : Upstream} {a : Answered} {later : List Answered}
        {ending : Result RoutingError (Unit {0})}
        → read_frame stream ≡ ok (some (request, rest))
        → (serve H to_vec ipv6 resolver connects request u).1 ≡ ok a
        → Session rest (serve H to_vec ipv6 resolver connects request u).0 (last, later, ending)
        → Session stream u (last, a ∷ later, ending)

  -- With more turns than its stream has bytes, a session of DNS over TCP ends by itself: at the end of
  -- the stream, a broken frame or a request that is not served, after it served every request before,
  -- and never for want of turns.
  pub tcp-Session :
      (fuel : ℕ) (stream : Bytes) (u : Upstream)
      → length stream < fuel
      → Session stream u (tcp H to_vec ipv6 resolver connects fuel stream u)
  unfolding tcp
  tcp-Session zero stream u enough = ground arith
  tcp-Session (suc fuel) stream u enough = elim (Result-cases (read_frame stream)) [
    | inr (e, f) ↦ rw (f, tcp) (at_broken_frame f)
    | inl (none, f) ↦ rw (f, tcp) (at_end f)
    | inl (some (request, rest), f) ↦
        let out = serve H to_vec ipv6 resolver connects request u in
        let shorter = read_frame-shorter stream request rest f in
        elim (Result-cases out.1) [
          | inr (e, g) ↦ rw (f, g, tcp) (at_request f g)
          | inl (a, g) ↦
              rw (f, g, tcp)
                (after_request f g (tcp-Session fuel rest out.0 (omega (arith, shorter))))
        ]
  ]
