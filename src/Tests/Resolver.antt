-- ===== src/Tests/Resolver.antt =====
-- Inputs for the theorems about virtual_dns.rs: a pool of two addresses.
use tun2proxy.VirtualDns.Mapping.{
  Maps, find_or_allocate_ip_total, find-known, find_or_allocate_ip_keeps,
  find_or_allocate_ip_recycles,
}
use tun2proxy.Maps.{head}
use tun2proxy.VirtualDns.Views.{name_of, address_of}
use tun2proxy.VirtualDns.Increment.{increment_ip}
use tun2proxy.VirtualDns.Lifecycle.{IsCidr, new-IsValid}
use tun2proxy.VirtualDns.Invariant.{IsValid}
use tun2proxy.VirtualDns.{
  Name, VirtualDns, find_or_allocate_ip, new, allocate_loop, take_vacant, recycle_lru, advance,
  bind, persist_mapping, canonical_name, canonical, address_in_pool, touch_ip,
  retry_dirty_persistence,
}
use tun2proxy.Prelude.{
  ◌≡◌, refl, arith, [], ◌∷◌, bytes_eq, ok, true, some, ◌≢◌, none, if◌then◌else◌, ◌==◌,
}
use tun2proxy.Ip.{v6, v4, ip_eq, IpAddr}
use tun2proxy.Tests.Crate.{crates}

abbrev pub first : IpAddr
first = v4 3323068416

abbrev pub last : IpAddr
last = v4 3323068417

pub cidr : IsCidr first last
cidr = record { family = refl; ordered = omega arith; fits = omega arith }

abbrev pub fresh : VirtualDns crates
fresh = new crates first last

pub fresh-IsValid : IsValid fresh
fresh-IsValid = (new-IsValid first last cidr).0

-- "A.b." and "c"
abbrev pub name_a : Name
name_a = 65 ∷ 46 ∷ 98 ∷ 46 ∷ []

abbrev pub name_c : Name
name_c = 99 ∷ []

-- What a run of the resolver computes with.
unfoldable pub resolver_program : Unit {0}
unfolding find_or_allocate_ip allocate_loop take_vacant recycle_lru advance bind persist_mapping
    canonical_name canonical new increment_ip address_in_pool touch_ip retry_dirty_persistence
resolver_program = tt

runs : (find_or_allocate_ip crates fresh name_a).1 ≡ ok first
unfolding resolver_program
runs = refl

-- The resolver after one name, and a pool of one address after one name.
abbrev pub one : VirtualDns crates
one = (find_or_allocate_ip crates fresh name_a).0

pub one-IsValid : IsValid one
one-IsValid = (find_or_allocate_ip_total fresh name_a fresh-IsValid).2

abbrev lone : VirtualDns crates
lone = new crates first first

lone-IsValid : IsValid lone
lone-IsValid =
    (new-IsValid first first
      (record { family = refl; ordered = omega arith; fits = omega arith })).0

abbrev full : VirtualDns crates
full = (find_or_allocate_ip crates lone name_a).0

full-IsValid : IsValid full
full-IsValid = (find_or_allocate_ip_total lone name_a lone-IsValid).2

find_or_allocate_ip_total_example :
    (ip : IpAddr) × ((find_or_allocate_ip crates one name_c).1 ≡ ok ip)
    × IsValid (find_or_allocate_ip crates one name_c).0
    × Maps (find_or_allocate_ip crates one name_c).0 (canonical_name crates one name_c) ip
find_or_allocate_ip_total_example = find_or_allocate_ip_total one name_c one-IsValid

find-known_example :
    ((find_or_allocate_ip crates one name_a).1 ≡ ok first)
    × ((j : IpAddr) → name_of (find_or_allocate_ip crates one name_a).0 j ≡ name_of one j)
    × IsValid (find_or_allocate_ip crates one name_a).0
unfolding resolver_program
find-known_example = find-known one name_a one-IsValid first refl

find_or_allocate_ip_keeps_example :
    name_of (find_or_allocate_ip crates one name_c).0 first ≡ some (97 ∷ 46 ∷ 98 ∷ [])
unfolding resolver_program
find_or_allocate_ip_keeps_example =
    find_or_allocate_ip_keeps one name_c one-IsValid last (refl, refl) first (97 ∷ 46 ∷ 98 ∷ [])
      refl

all_taken : (a : IpAddr) → address_in_pool crates full a ≡ true → name_of full a ≢ none
unfolding resolver_program
all_taken (v4 n) h e = ground arith
all_taken (v6 n) h e = cc

find_or_allocate_ip_recycles_example :
    (ip : IpAddr) × (old : Name) × (head (crates.lru.entries full.lru_cache) ≡ some (ip, old))
    × ((find_or_allocate_ip crates full name_c).1 ≡ ok ip)
    × (address_of (find_or_allocate_ip crates full name_c).0 old ≡ none)
    × ((j : IpAddr)
        → name_of (find_or_allocate_ip crates full name_c).0 j
          ≡ (if ip == j then some (canonical_name crates full name_c) else name_of full j))
unfolding resolver_program
find_or_allocate_ip_recycles_example =
    find_or_allocate_ip_recycles full name_c full-IsValid all_taken refl
