-- ===== src/VirtualDns/Pool.antt =====
-- The addresses of the pool in virtual_dns.rs, and the loop that looks for a free one.
use tun2proxy.Prelude.{
  ℕ, ◌+◌, ◌^◌, ◌≤◌, ◌<◌, ◌≡◌, refl, sym, ap, ◌∙◌, inl, inr, Bool, true, false, arith, eqb, leb,
  if◌then◌else◌, Bool-cases,
}
use native.Mathlib.Nat.{mod-eq_of_lt}
use tun2proxy.Ip.{IpAddr, v4, v6, ip_eq, ip_beq, ip_leb, is_ipv4, value}
use tun2proxy.VirtualDns.Increment.{increment_ip, increment_ip_v4, increment_ip_v6}
use tun2proxy.VirtualDns.{Crates, VirtualDns, address_in_pool, advance}

-- The number of addresses of a family.
abbrev pub family_size : Bool → ℕ
family_size true = 2 ^ 32
family_size false = 2 ^ 128

-- Two ends of one family, in order, and the cursor between them.
pub record IsPool {E : Crates} (d : VirtualDns E) : Type 0 where
  pub family : is_ipv4 d.broadcast_addr ≡ is_ipv4 d.network_addr
  pub ordered : value d.network_addr ≤ value d.broadcast_addr
  pub fits : value d.broadcast_addr < family_size (is_ipv4 d.network_addr)
  pub cursor : address_in_pool E d d.next_addr ≡ true

pub ip_ext : (a b : IpAddr) → is_ipv4 a ≡ is_ipv4 b → value a ≡ value b → a ≡ b
ip_ext (v4 a) (v4 b) f h = ap v4 h
ip_ext (v4 a) (v6 b) f h = cc
ip_ext (v6 a) (v4 b) f h = cc
ip_ext (v6 a) (v6 b) f h = ap v6 h

-- Within a family the order is that of the values.
ip_leb-value : (a b : IpAddr) → is_ipv4 a ≡ is_ipv4 b → ip_leb a b ≡ leb (value a) (value b)
ip_leb-value (v4 a) (v4 b) f = refl
ip_leb-value (v4 a) (v6 b) f = cc
ip_leb-value (v6 a) (v4 b) f = cc
ip_leb-value (v6 a) (v6 b) f = refl

pub ip_beq-value : (a b : IpAddr) → is_ipv4 a ≡ is_ipv4 b → ip_beq a b ≡ eqb (value a) (value b)
ip_beq-value (v4 a) (v4 b) f = refl
ip_beq-value (v4 a) (v6 b) f = cc
ip_beq-value (v6 a) (v4 b) f = cc
ip_beq-value (v6 a) (v6 b) f = refl

-- The next address of the same family.
increment_ip-value :
    (a : IpAddr)
    → value a + 1 < family_size (is_ipv4 a)
    → (is_ipv4 (increment_ip a) ≡ is_ipv4 a) × (value (increment_ip a) ≡ value a + 1)
increment_ip-value (v4 n) h = rw (increment_ip_v4 n (omega arith)) (refl, mod-eq_of_lt h)
increment_ip-value (v6 n) h = rw (increment_ip_v6 n (omega arith)) (refl, mod-eq_of_lt h)

-- The addresses from `network` to `broadcast`.
pub record Within (network broadcast a : IpAddr) : Type 0 where
  pub family : is_ipv4 a ≡ is_ipv4 network
  pub low : value network ≤ value a
  pub high : value a ≤ value broadcast

module _ {E : Crates} (d : VirtualDns E) where
  abbrev pub lo : ℕ
  lo = value d.network_addr

  abbrev pub hi : ℕ
  hi = value d.broadcast_addr

  abbrev pub InPool : IpAddr → Type 0
  InPool a = Within d.network_addr d.broadcast_addr a

  pub address_in_pool_of-InPool :
      (a : IpAddr)
      → is_ipv4 d.broadcast_addr ≡ is_ipv4 d.network_addr
      → InPool a
      → address_in_pool E d a ≡ true
  unfolding address_in_pool
  address_in_pool_of-InPool a f w =
      ground (arith, ip_leb-value d.network_addr a, ip_leb-value a d.broadcast_addr)

  pub InPool-address_in_pool :
      (a : IpAddr)
      → is_ipv4 d.broadcast_addr ≡ is_ipv4 d.network_addr
      → address_in_pool E d a ≡ true
      → InPool a
  unfolding address_in_pool
  InPool-address_in_pool a f h =
      ground (arith, ip_leb-value d.network_addr a, ip_leb-value a d.broadcast_addr)

  pub IsPool-cursor : (a : IpAddr) → IsPool d → InPool a → IsPool (record d { next_addr = a })
  unfolding address_in_pool
  IsPool-cursor a p w = record {
    family = p.family;
    ordered = p.ordered;
    fits = p.fits;
    cursor = address_in_pool_of-InPool a p.family w;
  }

  -- The successor in the pool, from the last address back to the first.
  pub advance-InPool :
      IsPool d
      → InPool (advance E d)
        × (value (advance E d) ≡ (if eqb (value d.next_addr) hi then lo else value d.next_addr + 1))
  unfolding advance
  advance-InPool p =
      let w = InPool-address_in_pool d.next_addr p.family p.cursor in
      let same : is_ipv4 d.next_addr ≡ is_ipv4 d.broadcast_addr = w.family ∙ sym p.family in
      let test = ip_beq-value d.next_addr d.broadcast_addr same in
      elim (Bool-cases (eqb (value d.next_addr) hi)) [
        | inl last ↦
            rw (test ∙ last, last)
              (record { family = refl; low = omega arith; high = p.ordered }, refl)
        | inr more ↦
            let room : value d.next_addr + 1 ≤ hi = ground arith in
            let next = increment_ip-value d.next_addr (rw w.family (omega arith)) in
            rw (test ∙ more, more)
              (record { family = next.0 ∙ w.family; low = omega arith; high = omega arith }, next.1)
      ]
