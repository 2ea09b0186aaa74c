-- ===== src/VirtualDns/Mapping.antt =====
-- What a client of virtual_dns.rs can rely on when it asks for the address of a name.
use tun2proxy.VirtualDns.Saved.{SavedOnly-retry}
use tun2proxy.Maps.{head, lookup-head}
use tun2proxy.VirtualDns.Views.{name_of, address_of, at, at_cases, name_of-touch}
use tun2proxy.VirtualDns.Invariant.{IsValid, IsValid-saved, IsValid-touch}
use tun2proxy.VirtualDns.{
  Crates, VirtualDns, Name, find_or_allocate_ip, address_in_pool, canonical_name, touch_ip,
}
use tun2proxy.Prelude.{
  refl, ◌≡◌, bytes_eq, true, some, ok, ◌≢◌, Option-cases, none, inl, inr, ◌∙◌, if◌then◌else◌, arith,
  beq_self, ◌==◌, ap,
}
use tun2proxy.Ip.{ip_eq, IpAddr, ip_beq_iff}
use tun2proxy.VirtualDns.Allocation.{find-new, free, recycled, IsFree, name_of-saved}

-- The two maps after a call: the name has the address, in both directions.
pub record Maps {E : Crates} (d : VirtualDns E) (name : Name) (ip : IpAddr) : Type 0 where
  pub inside : address_in_pool E d ip ≡ true
  pub there : name_of d ip ≡ some name
  pub back : address_of d name ≡ some ip

Maps-of :
    {E : Crates} (d : VirtualDns E) (name : Name) (ip : IpAddr)
    → IsValid d
    → name_of d ip ≡ some name
    → Maps d name ip
Maps-of d name ip v there = record {
  inside = v.pooled ip name there;
  there = there;
  back = v.inverse.there ip name there;
}

-- A name that the address `ip` had, and that has no address but `ip`, has none after another name
-- took it.
forgotten :
    {E : Crates} (d d' : VirtualDns E) (ip : IpAddr) (old name : Name)
    → IsValid d
    → IsValid d'
    → name_of d ip ≡ some old
    → address_of d name ≡ none
    → ((j : IpAddr) → name_of d' j ≡ at ip (some name) (name_of d) j)
    → address_of d' old ≡ none
forgotten d d' ip old name v v' there unknown after = elim (Option-cases (address_of d' old)) [
  | inl gone ↦ gone
  | inr (k, still) ↦ ground (
    arith,
    after k,
    ip_beq_iff ip k,
    v'.inverse.back k old still,
    v.inverse.there ip old there,
    v.inverse.there k old,
  )
]

module _ {E : Crates} (d : VirtualDns E) (name : Name) (v : IsValid d) where
  open E use {lru}

  -- A name that is known keeps its address, and no address changes its name.
  pub find-known :
      (ip : IpAddr)
      → address_of d (canonical_name E d name) ≡ some ip
      → ((find_or_allocate_ip E d name).1 ≡ ok ip)
        × ((j : IpAddr) → name_of (find_or_allocate_ip E d name).0 j ≡ name_of d j)
        × IsValid (find_or_allocate_ip E d name).0
  unfolding find_or_allocate_ip
  find-known ip known =
      let t = touch_ip E d ip in
      let saved = SavedOnly-retry t in
      rw (known, find_or_allocate_ip)
        (
          refl,
          λ j. name_of-saved t _ saved j ∙ name_of-touch d ip j,
          IsValid-saved t saved (IsValid-touch d ip v),
        )

  -- Every name gets an address: from a valid state the call succeeds, for any outcome of the file
  -- system, with an address of the pool that maps to the name and back, in a valid state.
  pub find_or_allocate_ip_total :
      (ip : IpAddr) × ((find_or_allocate_ip E d name).1 ≡ ok ip)
      × IsValid (find_or_allocate_ip E d name).0
      × Maps (find_or_allocate_ip E d name).0 (canonical_name E d name) ip
  find_or_allocate_ip_total = elim (Option-cases (address_of d (canonical_name E d name))) [
    | inl unknown ↦
        let n = canonical_name E d name in
        let (ip, chosen, r) = find-new d name v unknown in
        (
          ip,
          r.result,
          r.valid,
          Maps-of (find_or_allocate_ip E d name).0 n ip r.valid
              (r.names_after ip ∙ rw (beq_self ip)),
        )
    | inr (ip, known) ↦
        let n = canonical_name E d name in
        let (result, same, valid) = find-known ip known in
        (
          ip,
          result,
          valid,
          Maps-of (find_or_allocate_ip E d name).0 n ip valid (same ip ∙ v.inverse.back ip n known),
        )
  ]

  -- While an address of the pool is free, no mapping is lost: every address that had a name has
  -- it afterwards.
  pub find_or_allocate_ip_keeps :
      (a : IpAddr)
      → IsFree d a
      → (j : IpAddr) (n : Name) → name_of d j ≡ some n
      → name_of (find_or_allocate_ip E d name).0 j ≡ some n
  find_or_allocate_ip_keeps a (inside, unused) j n there =
      elim (Option-cases (address_of d (canonical_name E d name))) [
        | inr (ip, known) ↦ (find-known ip known).1 j ∙ there
        | inl unknown ↦
            let (ip, chosen, r) = find-new d name v unknown in
            elim chosen [
              | free (i, u) ↦ elim (at_cases (name_of d) ip (some (canonical_name E d name)) j) [
                | inl same ↦ cc (u, there, ap (name_of d) same)
                | inr other ↦ r.names_after j ∙ other ∙ there
              ]
              | recycled old first full ↦ absurd (full a inside unused)
            ]
      ]

  -- In a pool with no free address a new name takes the least recently used address, whose old
  -- name is forgotten, and every other address keeps its name.
  pub find_or_allocate_ip_recycles :
      ((a : IpAddr) → address_in_pool E d a ≡ true → name_of d a ≢ none)
      → address_of d (canonical_name E d name) ≡ none
      → (ip : IpAddr) × (old : Name) × (head (lru.entries d.lru_cache) ≡ some (ip, old))
        × ((find_or_allocate_ip E d name).1 ≡ ok ip)
        × (address_of (find_or_allocate_ip E d name).0 old ≡ none)
        × ((j : IpAddr)
            → name_of (find_or_allocate_ip E d name).0 j
              ≡ (if ip == j then some (canonical_name E d name) else name_of d j))
  find_or_allocate_ip_recycles full unknown =
      let n = canonical_name E d name in
      let (ip, chosen, r) = find-new d name v unknown in
      elim chosen [
        | free (inside, unused) ↦ absurd (full ip inside unused)
        | recycled old first none_left ↦
            let there = lookup-head (lru.entries d.lru_cache) ip old first in
            (
              ip,
              old,
              first,
              r.result,
              forgotten d (find_or_allocate_ip E d name).0 ip old n v r.valid there unknown
                  r.names_after,
              r.names_after,
            )
      ]
