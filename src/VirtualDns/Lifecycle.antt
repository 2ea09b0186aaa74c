-- ===== src/VirtualDns/Lifecycle.antt =====
-- The other operations of virtual_dns.rs on the two maps: creation, clearing, and looking a name up
-- by its address.
use tun2proxy.Maps.{touch, lookup}
use tun2proxy.VirtualDns.Views.{name_of, address_of, name_of-touch}
use tun2proxy.VirtualDns.Pool.{IsPool, Within, InPool, family_size, address_in_pool_of-InPool}
use tun2proxy.VirtualDns.{
  Crates, clear_mappings, VirtualDns, new, resolve_ip, address_in_pool, Name, touch_ip,
}
use tun2proxy.Prelude.{◌≡◌, bytes_eq, refl, arith, ◌≤◌, ap, none, ◌<◌}
use tun2proxy.Ip.{ip_eq, IpAddr, is_ipv4, value}
use tun2proxy.VirtualDns.Invariant.{IsValid, IsValid-touch}

-- The ends of a pool: one family, in order, and values that the family has.
pub record IsCidr (first last : IpAddr) : Type 0 where
  pub family : is_ipv4 last ≡ is_ipv4 first
  pub ordered : value first ≤ value last
  pub fits : value last < family_size (is_ipv4 first)

abbrev IsEmpty : {E : Crates} → VirtualDns E → Type 0
IsEmpty {E} d = ((j : IpAddr) → name_of d j ≡ none) × ((n : Name) → address_of d n ≡ none)

module _ {E : Crates} where
  open E use {lru, names}

  -- Two empty maps over a pool are valid.
  IsValid-empty : (d : VirtualDns E) → IsPool d → IsEmpty d → IsValid d
  IsValid-empty d p (no_names, no_addresses) = record {
    pool = p;
    inverse = record { there = λ j n h. cc (no_names j); back = λ j n h. cc (no_addresses n) };
    pooled = λ j n h. cc (no_names j);
  }

  -- A new resolver is valid, and no address of it has a name.
  pub new-IsValid :
      (first last : IpAddr)
      → IsCidr first last
      → IsValid (new E first last) × ((j : IpAddr) → name_of (new E first last) j ≡ none)
  unfolding new address_in_pool
  new-IsValid first last c =
      let no_names = λ (j : IpAddr). ap (lookup j) lru.entries-new in
      let w : Within first last first = record {
        family = refl;
        low = omega arith;
        high = c.ordered;
      } in
      let d = new E first last in
      (
        IsValid-empty d
            (record {
              family = c.family;
              ordered = c.ordered;
              fits = c.fits;
              cursor = address_in_pool_of-InPool d first c.family w;
            })
            (no_names, names.get-empty),
        no_names,
      )

  -- Clearing a valid resolver leaves a valid one, empty, with the cursor at the first address.
  pub clear_mappings-IsValid :
      (d : VirtualDns E) → IsValid d → IsValid (clear_mappings E d) × IsEmpty (clear_mappings E d)
  unfolding clear_mappings address_in_pool
  clear_mappings-IsValid d v =
      let p = v.pool in
      let no_names = λ (j : IpAddr). ap (lookup j) (lru.entries-clear d.lru_cache) in
      let w : InPool d d.network_addr = record {
        family = refl;
        low = omega arith;
        high = p.ordered;
      } in
      (
        IsValid-empty (clear_mappings E d)
            (record {
              family = p.family;
              ordered = p.ordered;
              fits = p.fits;
              cursor = address_in_pool_of-InPool d d.network_addr p.family w;
            })
            (no_names, names.get-empty),
        (no_names, names.get-empty),
      )

  -- Looking an address up gives its name, changes no mapping, and keeps the state valid; it moves
  -- the address to the recent end of the cache.
  pub resolve_ip_lem :
      (d : VirtualDns E) (a : IpAddr)
      → IsValid d
      → ((resolve_ip E d a).1 ≡ name_of d a)
        × IsValid (resolve_ip E d a).0
        × ((j : IpAddr) → name_of (resolve_ip E d a).0 j ≡ name_of d j)
        × (lru.entries (resolve_ip E d a).0.lru_cache ≡ touch a (lru.entries d.lru_cache))
  unfolding resolve_ip
  resolve_ip_lem d a v = (
    lru.get-lookup d.lru_cache a,
    unfold touch_ip in IsValid-touch d a v,
    unfold touch_ip in name_of-touch d a,
    lru.entries-get d.lru_cache a,
  )
