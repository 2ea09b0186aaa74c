-- ===== src/UdpBypass/Active.antt =====
-- udp_bypass.rs: endpoints with routes stay as they are while other sources come and go, and which
-- endpoints maintenance leaves.
use tun2proxy.UdpBypass.Limits.{IsSound, retire_changed-IsSound, retain-IsSound}
use tun2proxy.UdpBypass.Entries.{lookup-kept, oldest_idle}
use tun2proxy.UdpBypass.{
  Endpoint, Pool, BindInterface, retire, retire_expired, retire_changed, make_room, oldest, replace,
  add_route, open_new, open_with, addr_eq, expired, is_empty, is_refused, bound_endpoint,
  uses_interface,
}
use tun2proxy.Maps.Assoc.{lookup, Distinct, lookup-without, lookup-without_snoc}
use tun2proxy.Proxy.{SocketAddr}
use tun2proxy.Prelude.{
  refl, true, false, none, some, inl, inr, ◌≡◌, ◌≢◌, ◌==◌, Eq, arith, ap, ◌∙◌, sym, ◌||◌,
  Bool-cases, Option-cases, ℕ, leb, Bool, not, length, subst, Option,
}

module _ {Owner : Type 0} ⦃same : Eq Owner⦄ where
  abbrev Has : SocketAddr → Endpoint Owner → Pool Owner → Type 0
  Has s e p = lookup s p.endpoints ≡ some e

  abbrev has_none : Option (Endpoint Owner) → Bool
  has_none none = true
  has_none (some e) = is_empty e.routes

  module _ (s source : SocketAddr) (e : Endpoint Owner) (other : (source == s) ≡ false)
      (open_now : e.closed ≡ false) (busy : is_empty e.routes ≡ false) where
    retire_expired-Has :
        (now : ℕ) (p : Pool Owner)
        → Distinct p.endpoints
        → Has s e p
        → Has s e (retire_expired now p)
    unfolding expired
    retire_expired-Has now p d h =
        lookup-kept (λ t x. not (expired now x)) s p.endpoints d ∙ rw (h, open_now, busy) refl

    retire-Has :
        (t : SocketAddr) (p : Pool Owner) → (t == s) ≡ false → Has s e p → Has s e (retire t p)
    unfolding retire
    retire-Has t p o h = elim (Option-cases (lookup t p.endpoints)) [
      | inl absent ↦ rw (absent, retire) h
      | inr (x, found) ↦ rw (found, retire) (lookup-without t s p.endpoints ∙ rw o h)
    ]

    retire_changed-Has :
        (owner : Owner) (interface : BindInterface) (p : Pool Owner)
        → Has s e p
        → Has s e (retire_changed source owner interface p)
    unfolding retire_changed
    retire_changed-Has owner interface p h = elim (Option-cases (lookup source p.endpoints)) [
      | inl absent ↦ rw (absent, retire_changed) h
      | inr (x, found) ↦
          elim (Bool-cases (not (x.owner == owner) || not (uses_interface x source interface))) [
            | inl changed ↦ rw (found, changed, retire_changed) (retire-Has source p other h)
            | inr unchanged ↦ rw (found, unchanged, retire_changed) h
          ]
    ]

    replace-Has : (x : Endpoint Owner) (p : Pool Owner) → Has s e p → Has s e (replace source x p)
    replace-Has x p h = lookup-without_snoc p.endpoints source x s ∙ rw other h

    add_route-Has :
        (now : ℕ) (p : Pool Owner) (peer : SocketAddr)
        → Has s e p
        → Has s e (add_route now p source peer).0
    unfolding add_route
    add_route-Has now p peer h = elim (Option-cases (lookup source p.endpoints)) [
      | inl absent ↦ rw (absent, add_route) h
      | inr (x, found) ↦ elim (Bool-cases x.closed) [
        | inl shut ↦ rw (found, shut, add_route) h
        | inr on ↦ elim (Option-cases (lookup peer x.routes)) [
          | inr (q, taken) ↦ rw (found, on, taken, add_route) h
          | inl free ↦ rw (found, on, free, add_route) (replace-Has _ p h)
        ]
      ]
    ]

    oldest_other :
        (p : Pool Owner) (t : SocketAddr) (activity : ℕ)
        → Distinct p.endpoints
        → Has s e p
        → oldest p.endpoints ≡ some (t, activity)
        → (t == s) ≡ false
    oldest_other p t activity d h f =
        let (x, at, idle) = oldest_idle p.endpoints t activity d f in
        elim (Bool-cases (t == s)) [
          | inr differs ↦ differs
          | inl equal ↦
              let same_entry : some x ≡ some e =
                sym at ∙ ap (λ k. lookup k p.endpoints) ((addr_eq.beq_iff t s).0 equal) ∙ h in
              equal ∙ sym idle ∙ ap has_none same_entry ∙ busy
        ]

    make_room-Has :
        (p p' : Pool Owner) → Distinct p.endpoints → Has s e p → make_room p ≡ some p' → Has s e p'
    unfolding make_room
    make_room-Has p p' d h made = elim (Bool-cases (leb p.limit (length p.endpoints))) [
      | inr free ↦ let q : p ≡ p' = cc (rw (free, make_room) at made) in subst (Has s e) q h
      | inl full ↦ elim (Option-cases (oldest p.endpoints)) [
        | inl f ↦ ground (arith, (rw (full, f, make_room) at made))
        | inr ((t, activity), f) ↦
            let q : retire t p ≡ p' = cc (rw (full, f, make_room) at made) in
            subst (Has s e) q (retire-Has t p (oldest_other p t activity d h f) h)
      ]
    ]

    open_new-Has :
        (now : ℕ) (bound : Bool) (p : Pool Owner) (peer : SocketAddr) (owner : Owner)
        (interface : BindInterface)
        → Distinct p.endpoints
        → Has s e p
        → Has s e (open_new now bound p source peer owner interface).0
    unfolding open_new
    open_new-Has now bound p peer owner interface d h = elim (Option-cases (make_room p)) [
      | inl f ↦ rw (f, open_new) h
      | inr (p', f) ↦
          let h' = make_room-Has p p' d h f in
          elim (Bool-cases bound) [
            | inr failed ↦ rw (f, failed, open_new) h'
            | inl made ↦
                rw (f, made, open_new)
                  (add_route-Has now (replace source (bound_endpoint now owner interface) p') peer
                    (replace-Has (bound_endpoint now owner interface) p' h'))
          ]
    ]

    open_with-Has :
        (now : ℕ) (bound : Bool) (p : Pool Owner) (peer : SocketAddr) (owner : Owner)
        (interface : BindInterface)
        → IsSound p
        → Has s e p
        → Has s e (open_with now bound p source peer owner interface).0
    unfolding open_with
    open_with-Has now bound p peer owner interface sound h =
        let p1 = retire_changed source owner interface (retire_expired now p) in
        let h1 : Has s e p1 =
          retire_changed-Has owner interface (retire_expired now p)
            (retire_expired-Has now p sound.distinct h) in
        elim (Bool-cases (is_refused source peer)) [
          | inl refused ↦ rw (refused, open_with) h
          | inr fine ↦ elim (Option-cases (lookup source p1.endpoints)) [
            | inr (x, found) ↦ rw (fine, found, open_with) (add_route-Has now p1 peer h1)
            | inl absent ↦
                rw (fine, absent, open_with)
                  (open_new-Has now bound p1 peer owner interface
                    (retire_changed-IsSound source owner interface _
                      (retain-IsSound _ p sound)).distinct
                    h1)
          ]
        ]

  -- In a well-formed pool, opening a flow leaves an open endpoint of another source that has routes
  -- exactly as it is, even when the pool is full.
  pub open_with_keeps :
      (now : ℕ) (bound : Bool) (p : Pool Owner) (source peer s : SocketAddr) (owner : Owner)
      (interface : BindInterface) (e : Endpoint Owner)
      → IsSound p
      → source ≢ s
      → lookup s p.endpoints ≡ some e
      → e.closed ≡ false
      → is_empty e.routes ≡ false
      → lookup s (open_with now bound p source peer owner interface).0.endpoints ≡ some e
  open_with_keeps now bound p source peer s owner interface e sound differs h open_now busy =
      let other : (source == s) ≡ false = ground (arith, differs, addr_eq.beq_iff source s) in
      open_with-Has s source e other open_now busy now bound p peer owner interface sound h

  abbrev elim_test : (Endpoint Owner → Bool) → Option (Endpoint Owner) → Bool
  elim_test q none = false
  elim_test q (some e) = q e
