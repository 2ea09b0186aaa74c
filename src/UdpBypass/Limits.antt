-- ===== src/UdpBypass/Limits.antt =====
-- udp_bypass.rs: the well-formed pools, and that every operation keeps them.
use tun2proxy.UdpBypass.Entries.{
  AreDead, AreDead-append, AreDead-closed_by, Distinct-kept, length-kept, length-without_found,
  length-without, oldest_idle,
}
use tun2proxy.UdpBypass.{
  open_new, Endpoint, Pool, BindInterface, new, retain, retire, retire_changed, make_room, oldest,
  replace, bound_endpoint, add_route, open_with, maintain_with, shutdown, addr_eq, retire_expired,
  is_refused, receive, drop_flow, close, Flow,
}
use tun2proxy.Maps.Assoc.{lookup, without, Distinct, Distinct-without, Distinct-replaced}
use tun2proxy.Proxy.{SocketAddr, Bytes}
use tun2proxy.Prelude.{
  refl, some, inl, inr, [], ◌∷◌, ◌≡◌, ◌≤◌, ◌<◌, Eq, arith, ℕ, Option-cases, Bool, length,
  length-append, Bool-cases, leb, subst, Option,
}

module _ {Owner : Type 0} ⦃same : Eq Owner⦄ where
  -- No source has two endpoints, no more stand in the pool than its limit, and those that left it are
  -- closed and have no routes.
  pub record IsSound (p : Pool Owner) : Type 0 where
    pub distinct : Distinct p.endpoints
    pub within : length p.endpoints ≤ p.limit
    pub dead : AreDead p.retired

  pub new-IsSound : (limit : ℕ) → IsSound (new limit) × ((new {Owner = Owner} limit).limit ≤ 1024)
  unfolding new
  new-IsSound limit = (record { distinct = tt; within = ground arith; dead = tt }, ground arith)

  pub retain-IsSound :
      (keep : SocketAddr → Endpoint Owner → Bool) (p : Pool Owner)
      → IsSound p
      → IsSound (retain keep p)
  retain-IsSound keep p s = record {
    distinct = Distinct-kept keep p.endpoints s.distinct;
    within = omega (arith, s.within, length-kept keep p.endpoints);
    dead = AreDead-append _ p.retired (AreDead-closed_by keep p.endpoints) s.dead;
  }

  retire-found :
      (source : SocketAddr) (p : Pool Owner) (e : Endpoint Owner)
      → IsSound p
      → lookup source p.endpoints ≡ some e
      → IsSound (retire source p)
        × (length (retire source p).endpoints < p.limit)
        × ((retire source p).limit ≡ p.limit)
  unfolding retire
  retire-found source p e s found =
      let fewer = length-without_found source p.endpoints e found in
      rw (found, retire)
        (
          record {
            distinct = Distinct-without source p.endpoints s.distinct;
            within = omega (arith, fewer, s.within);
            dead = ((refl, refl), s.dead);
          },
          omega (arith, fewer, s.within),
          refl,
        )

  pub retire-IsSound :
      (source : SocketAddr) (p : Pool Owner) → IsSound p → IsSound (retire source p)
  unfolding retire
  retire-IsSound source p s = elim (Option-cases (lookup source p.endpoints)) [
    | inl absent ↦ rw (absent, retire) s
    | inr (e, found) ↦ (retire-found source p e s found).0
  ]

  pub retire_changed-IsSound :
      (source : SocketAddr) (owner : Owner) (interface : BindInterface) (p : Pool Owner)
      → IsSound p
      → IsSound (retire_changed source owner interface p)
  unfolding retire_changed
  retire_changed-IsSound source owner interface p s =
      elim (Option-cases (lookup source p.endpoints)) [
        | inl absent ↦ rw (absent, retire_changed) s
        | inr (e, found) ↦ rw (found, retire_changed) (ground (arith, s, retire-IsSound source p s))
      ]

  make_room-IsSound :
      (p p' : Pool Owner)
      → IsSound p
      → make_room p ≡ some p'
      → IsSound p' × (length p'.endpoints < p'.limit) × (p'.limit ≡ p.limit)
  unfolding make_room
  make_room-IsSound p p' s h = elim (Bool-cases (leb p.limit (length p.endpoints))) [
    | inr free ↦
        let e : p ≡ p' = cc (rw (free, make_room) at h) in
        subst (λ q. IsSound q × (length q.endpoints < q.limit) × (q.limit ≡ p.limit)) e
          (s, ground (arith, free), refl)
    | inl full ↦ elim (Option-cases (oldest p.endpoints)) [
      | inl f ↦ ground (arith, (rw (full, f, make_room) at h))
      | inr ((t, activity), f) ↦
          let (x, at, idle) = oldest_idle p.endpoints t activity s.distinct f in
          let (sound, less, limit) = retire-found t p x s at in
          let e : retire t p ≡ p' = cc (rw (full, f, make_room) at h) in
          subst (λ q. IsSound q × (length q.endpoints < q.limit) × (q.limit ≡ p.limit)) e
            (sound, omega (arith, less, limit), limit)
    ]
  ]

  replace-IsSound :
      (source : SocketAddr) (e : Endpoint Owner) (p : Pool Owner)
      → IsSound p
      → length (without source p.endpoints) < p.limit
      → IsSound (replace source e p)
  replace-IsSound source e p s less = record {
    distinct = Distinct-replaced source e p.endpoints s.distinct;
    within = omega (arith, less, length-append (without source p.endpoints) ((source, e) ∷ []));
    dead = s.dead;
  }

  -- An endpoint of the pool is changed in place.
  changed-IsSound :
      (source : SocketAddr) (e e' : Endpoint Owner) (p : Pool Owner)
      → lookup source p.endpoints ≡ some e
      → IsSound p
      → IsSound (replace source e' p)
  changed-IsSound source e e' p found s =
      replace-IsSound source e' p s
        (omega (arith, s.within, length-without_found source p.endpoints e found))

  add_route-IsSound :
      (now : ℕ) (p : Pool Owner) (source peer : SocketAddr)
      → IsSound p
      → IsSound (add_route now p source peer).0
  unfolding add_route
  add_route-IsSound now p source peer s = elim (Option-cases (lookup source p.endpoints)) [
    | inl absent ↦ rw (absent, add_route) s
    | inr (e, found) ↦ elim (Bool-cases e.closed) [
      | inl shut ↦ rw (found, shut, add_route) s
      | inr open_now ↦ elim (Option-cases (lookup peer e.routes)) [
        | inr (q, taken) ↦ rw (found, open_now, taken, add_route) s
        | inl free ↦ rw (found, open_now, free, add_route) (changed-IsSound source e _ p found s)
      ]
    ]
  ]

  opened-IsSound :
      (now : ℕ) (bound : Bool) (p : Pool Owner) (source peer : SocketAddr) (owner : Owner)
      (interface : BindInterface)
      → IsSound p
      → IsSound (open_new now bound p source peer owner interface).0
  unfolding open_new
  opened-IsSound now bound p source peer owner interface s = elim (Option-cases (make_room p)) [
    | inl f ↦ rw (f, open_new) s
    | inr (p2, f) ↦
        let (sound, less, limit) = make_room-IsSound p p2 s f in
        elim (Bool-cases bound) [
          | inr failed ↦ rw (f, failed, open_new) sound
          | inl made ↦
              rw (f, made, open_new)
                (add_route-IsSound now (replace source (bound_endpoint now owner interface) p2)
                  source peer
                  (replace-IsSound source (bound_endpoint now owner interface) p2 sound
                    (omega (arith, less, length-without source p2.endpoints))))
        ]
  ]

  pub open_with-IsSound :
      (now : ℕ) (bound : Bool) (p : Pool Owner) (source peer : SocketAddr) (owner : Owner)
      (interface : BindInterface)
      → IsSound p
      → IsSound (open_with now bound p source peer owner interface).0
  unfolding open_with
  open_with-IsSound now bound p source peer owner interface s =
      let p1 = retire_changed source owner interface (retire_expired now p) in
      let s1 : IsSound p1 =
        retire_changed-IsSound source owner interface (retire_expired now p)
          (retain-IsSound _ p s) in
      elim (Bool-cases (is_refused source peer)) [
        | inl refused ↦ rw (refused, open_with) s
        | inr fine ↦ elim (Option-cases (lookup source p1.endpoints)) [
          | inr (e, found) ↦ rw (fine, found, open_with) (add_route-IsSound now p1 source peer s1)
          | inl absent ↦
              rw (fine, absent, open_with)
                (opened-IsSound now bound p1 source peer owner interface s1)
        ]
      ]

  -- The operations on a pool, in any order and at any times, with what the receiver of an endpoint and
  -- the flows do to it while it stands in the pool: a datagram comes in, a flow is dropped, and the
  -- receiver closes the endpoint when its socket fails. An endpoint that left the pool has no routes,
  -- so that none of these changes it.
  pub data Uses (first : Pool Owner) : Pool Owner → Type 0 where
    started : Uses first first
    opened :
        {p : Pool Owner} (now : ℕ) (bound : Bool) (source peer : SocketAddr) (owner : Owner)
        (interface : BindInterface)
        → Uses first p
        → Uses first (open_with now bound p source peer owner interface).0
    maintained :
        {p : Pool Owner} (now : ℕ) (owners : Option (SocketAddr → Option Owner))
        (interface : Option BindInterface)
        → Uses first p
        → Uses first (maintain_with now owners interface p)
    shut_down : {p : Pool Owner} → Uses first p → Uses first (shutdown p)
    received :
        {p : Pool Owner} {e : Endpoint Owner} (now budget : ℕ) (source peer : SocketAddr)
        (bytes : Bytes)
        → lookup source p.endpoints ≡ some e
        → Uses first p
        → Uses first (replace source (receive now budget e peer bytes).0 p)
    dropped :
        {p : Pool Owner} {e : Endpoint Owner} (flow : Flow)
        → lookup flow.source p.endpoints ≡ some e
        → Uses first p
        → Uses first (replace flow.source (drop_flow flow e) p)
    failed :
        {p : Pool Owner} {e : Endpoint Owner} (source : SocketAddr)
        → lookup source p.endpoints ≡ some e
        → Uses first p
        → Uses first (replace source (close e) p)

  Uses-IsSound : (first p : Pool Owner) → IsSound first → Uses first p → IsSound p
  unfolding maintain_with shutdown
  Uses-IsSound first p s started = s
  Uses-IsSound first p s (opened {p = q} now bound source peer owner interface u) =
      open_with-IsSound now bound q source peer owner interface (Uses-IsSound first q s u)
  Uses-IsSound first p s (maintained {p = q} now owners interface u) =
      let i = Uses-IsSound first q s u in
      retain-IsSound _ _ (record { distinct = i.distinct; within = i.within; dead = i.dead })
  Uses-IsSound first p s (shut_down {p = q} u) = retain-IsSound _ q (Uses-IsSound first q s u)
  Uses-IsSound first p s (received {p = q} {e = e} now budget source peer bytes found u) =
      changed-IsSound source e _ q found (Uses-IsSound first q s u)
  Uses-IsSound first p s (dropped {p = q} {e = e} flow found u) =
      changed-IsSound flow.source e _ q found (Uses-IsSound first q s u)
  Uses-IsSound first p s (failed {p = q} {e = e} source found u) =
      changed-IsSound source e _ q found (Uses-IsSound first q s u)

  -- In every order of calls on a new pool, of datagrams that come in, flows that are dropped and
  -- receivers that fail, no source has two endpoints, no more stand in the pool than its limit,
  -- and every endpoint that left it is closed and has no routes.
  pub Uses-new :
      (limit : ℕ) (p : Pool Owner)
      → Uses (new limit) p
      → Distinct p.endpoints × (length p.endpoints ≤ p.limit) × AreDead p.retired
  Uses-new limit p u =
      let s = Uses-IsSound (new limit) p (new-IsSound limit).0 u in (s.distinct, s.within, s.dead)
