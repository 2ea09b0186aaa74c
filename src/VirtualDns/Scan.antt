-- ===== src/VirtualDns/Scan.antt =====
-- virtual_dns.rs: the way of the cursor in the loop of `find_or_allocate_ip`.
use tun2proxy.Prelude.{
  ℕ, zero, suc, ◌+◌, ◌-◌, ◌≤◌, ◌<◌, ◌≡◌, sym, ap, ◌∙◌, ◌⊎◌, inl, inr, true, false, arith, eqb, leb,
  if◌then◌else◌, ◌==◌, ◌≢◌, Bool-cases, eqb_iff,
}
use tun2proxy.Ip.{IpAddr, ip_eq, ip_beq_iff, value}
use tun2proxy.VirtualDns.{
  Name, Crates, VirtualDns, advance, take_vacant, recycle_lru, allocate_loop,
}
use tun2proxy.VirtualDns.Pool.{
  IsPool, InPool, ip_ext, ip_beq-value, IsPool-cursor, InPool-address_in_pool, advance-InPool, lo,
  hi,
}

-- How many rounds after value `s` the loop looks at value `a`.
pub position : ℕ → ℕ → ℕ → ℕ → ℕ
position lo hi s a = if leb s a then a - s else (hi + 1 - s) + (a - lo)

position-lt : (lo hi s a : ℕ) → lo ≤ s → s ≤ hi → lo ≤ a → a ≤ hi → position lo hi s a < hi + 1 - lo
unfolding position
position-lt lo hi s a p q r t = ground arith

pub position_self : (lo hi s : ℕ) → position lo hi s s ≡ 0
unfolding position
position_self lo hi s = ground arith

position-injective :
    (lo hi s a b : ℕ)
    → lo ≤ s
    → s ≤ hi
    → lo ≤ a
    → a ≤ hi
    → lo ≤ b
    → b ≤ hi
    → position lo hi s a ≡ position lo hi s b
    → a ≡ b
unfolding position
position-injective lo hi s a b p q r t u v e = ground arith

-- Where the round ends: `back` at the start, with every position passed, or one position on.
position-advance :
    (lo hi s a b : ℕ)
    → lo ≤ s
    → s ≤ hi
    → lo ≤ a
    → a ≤ hi
    → b ≡ (if eqb a hi then lo else a + 1)
    → (b ≡ s → position lo hi s a + 1 ≡ hi + 1 - lo)
      × (b ≢ s → position lo hi s b ≡ position lo hi s a + 1)
unfolding position
position-advance lo hi s a b p q r t e = (λ h. ground arith, λ h. ground arith)

module _ {E : Crates} (started_at : IpAddr) (name : Name) where
  open E use {lru}

  -- The loop ends at a free address of the pool, or knows that there is none.
  abbrev pub LoopEnds : ℕ → VirtualDns E → Type 0
  LoopEnds fuel d =
      ((a : IpAddr) × InPool d a
        × (lru.is_vacant d.lru_cache a ≡ true)
        × (allocate_loop E fuel started_at name d
            ≡ take_vacant E (record d { next_addr = a }) name))
      ⊎ (((a : IpAddr) → InPool d a → lru.is_vacant d.lru_cache a ≡ false)
          × (allocate_loop E fuel started_at name d
              ≡ recycle_lru E (record d { next_addr = started_at }) name))

  abbrev pub place : VirtualDns E → IpAddr → ℕ
  place d a = position (lo d) (hi d) (value started_at) (value a)

  -- What the rounds have looked at, with the address at hand.
  seen :
      (d : VirtualDns E)
      → IsPool d
      → InPool d started_at
      → ((a : IpAddr)
          → InPool d a
          → place d a < place d d.next_addr
          → lru.is_vacant d.lru_cache a ≡ false)
      → lru.is_vacant d.lru_cache d.next_addr ≡ false
      → (a : IpAddr) → InPool d a
      → place d a < place d d.next_addr + 1
      → lru.is_vacant d.lru_cache a ≡ false
  seen d p s passed used a w h =
      let v = InPool-address_in_pool d d.next_addr p.family p.cursor in
      elim (Bool-cases (eqb (place d a) (place d d.next_addr))) [
        | inl same ↦
            let e : a ≡ d.next_addr = ip_ext a d.next_addr (w.family ∙ sym v.family) (
              position-injective (lo d) (hi d) (value started_at) (value a) (value d.next_addr)
                s.low s.high w.low w.high v.low v.high (ground arith)) in
            rw e used
        | inr other ↦ passed a w (ground arith)
      ]

  pub allocate_loop-LoopEnds :
      (fuel : ℕ) (d : VirtualDns E)
      → IsPool d
      → InPool d started_at
      → hi d + 1 - lo d ≤ fuel + place d d.next_addr
      → ((a : IpAddr)
          → InPool d a
          → place d a < place d d.next_addr
          → lru.is_vacant d.lru_cache a ≡ false)
      → LoopEnds fuel d
  unfolding allocate_loop
  allocate_loop-LoopEnds zero d p s h passed =
      let w = InPool-address_in_pool d d.next_addr p.family p.cursor in
      absurd (
        omega (
          arith,
          position-lt (lo d) (hi d) (value started_at) (value d.next_addr) s.low s.high w.low
              w.high,
        ))
  allocate_loop-LoopEnds (suc fuel) d p s h passed =
      let w = InPool-address_in_pool d d.next_addr p.family p.cursor in
      let (w', v') = advance-InPool d p in
      let d' : VirtualDns E = record d { next_addr = advance E d } in
      elim (Bool-cases (lru.is_vacant d.lru_cache d.next_addr)) [
        | inl free ↦ inl (d.next_addr, w, free, rw (free, allocate_loop))
        | inr used ↦
            let now_seen = seen d p s passed used in
            let (at_start, further) =
              position-advance (lo d) (hi d) (value started_at) (value d.next_addr)
                (value (advance E d)) s.low s.high w.low w.high v' in
            elim (Bool-cases (advance E d == started_at)) [
              | inl back ↦
                  let e : advance E d ≡ started_at = (ip_beq_iff (advance E d) started_at).0 back in
                  inr (
                    λ a wa. now_seen a wa (
                        rw (at_start (ap value e)) (
                          position-lt (lo d) (hi d) (value started_at) (value a) s.low s.high wa.low
                            wa.high)),
                    rw (used, back, allocate_loop)
                        (ap (λ x. recycle_lru E (record d { next_addr = x }) name) e),
                  )
              | inr on ↦
                  let step : place d (advance E d) ≡ place d d.next_addr + 1 = further (λ same. cc (
                    on,
                    ip_beq-value (advance E d) started_at (w'.family ∙ sym s.family),
                    (eqb_iff (value (advance E d)) (value started_at)).1 same,
                  )) in
                  elim (allocate_loop-LoopEnds fuel d' (IsPool-cursor d (advance E d) p w') s
                    (omega (arith, step)) (λ a wa ha. now_seen a wa (rw (← step) ha))) [
                      | inl (a, wa, free, e) ↦ inl (a, wa, free, rw (used, on, allocate_loop) e)
                      | inr (full, e) ↦ inr (full, rw (used, on, allocate_loop) e)
                    ]
            ]
      ]
