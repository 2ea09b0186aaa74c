-- ===== src/VirtualDns.antt =====
-- virtual_dns.rs: the resolver that hands out fake addresses from a pool, with its LRU cache, its
-- reverse map and its journal. The proofs are in the modules below.
pub mod Increment
pub mod Disk
pub mod Persistence
pub mod Views
pub mod Saved
pub mod Pool
pub mod Scan
pub mod Invariant
pub mod Allocation
pub mod Mapping
pub mod Lifecycle
pub mod Restore
use tun2proxy.Prelude.{
  to_ascii_lowercase, ℕ, zero, suc, ◌+◌, ◌-◌, ◌*◌, ◌/◌, ◌%◌, Bool, true, false, ◌&&◌, ◌||◌, not,
  Option, none, some, List, [], ◌∷◌, ◌==◌, bool_eq, bytes_eq, Result, ok, err, length, ltb, leb,
  eqb, if◌then◌else◌,
}
use mathlib.Core.Option
use tun2proxy.Ip.{IpAddr, v4, v6, ip_eq, ip_leb, is_ipv4, value}
use tun2proxy.Maps.{HashMapApi, LruApi}
use tun2proxy.VirtualDns.Increment.{increment_ip}
use tun2proxy.VirtualDns.Disk.{Bytes, Error, exhausted, out_of_fuel}
use tun2proxy.VirtualDns.Persistence.{
  Codec, PersistentCache, LoadResult, missing, incompatible, loaded, load, append_mapping, rewrite,
  needs_rewrite, should_compact, mark_dirty,
}

-- A name is the bytes of its text.
abbrev pub Name : Type 0
Name = Bytes

-- What the resolver takes from other crates.
pub record Crates : Type 1 where
  pub codec : Codec
  pub lru : LruApi IpAddr Name
  pub names : HashMapApi Name IpAddr

-- `str::ends_with('.')` and `str::trim_end_matches('.')`
ends_with_dot : Bytes → Bool
ends_with_dot [] = false
ends_with_dot (b ∷ []) = eqb b 46
ends_with_dot (b ∷ c ∷ bs) = ends_with_dot (c ∷ bs)

drop_dot : ℕ → Bytes → Bytes
drop_dot b [] = if eqb b 46 then [] else b ∷ []
drop_dot b (c ∷ bs) = b ∷ c ∷ bs

pub trim_end_dots : Bytes → Bytes
trim_end_dots [] = []
trim_end_dots (b ∷ bs) = drop_dot b (trim_end_dots bs)

abbrev pub is_empty : Bytes → Bool
is_empty [] = true
is_empty (b ∷ bs) = false

-- `canonical_name`, as a function of the field `trailing_dot`
unfoldable pub canonical : Bool → Bytes → Bytes
unfolding ends_with_dot trim_end_dots drop_dot
canonical trailing_dot name =
    to_ascii_lowercase (if ends_with_dot name && not trailing_dot then trim_end_dots name else name)

unfoldable pub upper_half_start : IpAddr → IpAddr → IpAddr
upper_half_start (v4 network) (v4 broadcast) =
    let distance = broadcast - network in v4 (network + distance / 2 + distance % 2)
upper_half_start (v6 network) (v6 broadcast) =
    let distance = broadcast - network in v6 (network + distance / 2 + distance % 2)
upper_half_start network broadcast = network

pub record VirtualDns (E : Crates) : Type 0 where
  pub trailing_dot : Bool
  pub lru_cache : E.lru.LruCache
  pub name_to_ip : E.names.HashMap
  pub network_addr : IpAddr
  pub broadcast_addr : IpAddr
  pub next_addr : IpAddr
  pub persistence : Option PersistentCache

module _ (E : Crates) where
  open E use {lru, names, codec}

  -- A pool is its first and its last address.
  unfoldable pub new : IpAddr → IpAddr → VirtualDns E
  new first last = record {
    trailing_dot = false;
    lru_cache = lru.new_unbounded;
    name_to_ip = names.empty;
    network_addr = first;
    broadcast_addr = last;
    next_addr = first;
    persistence = none;
  }

  unfoldable pub clear_mappings : VirtualDns E → VirtualDns E
  clear_mappings d = record d {
    lru_cache = lru.clear d.lru_cache;
    name_to_ip = names.empty;
    next_addr = d.network_addr;
  }

  unfoldable pub canonical_name : VirtualDns E → Name → Name
  canonical_name d name = canonical d.trailing_dot name

  unfoldable pub address_in_pool : VirtualDns E → IpAddr → Bool
  address_in_pool d ip =
      (is_ipv4 ip == is_ipv4 d.network_addr)
      && ip_leb d.network_addr ip
      && ip_leb ip d.broadcast_addr

  unfoldable pub contains_address : VirtualDns E → IpAddr → Bool
  contains_address d addr = address_in_pool d addr

  -- The two removals of `restore_mapping`: the address that the name had, and the name that the
  -- address had.
  unfoldable pub forget_name : VirtualDns E → Name → VirtualDns E
  forget_name d name =
      let (m, old) = names.remove d.name_to_ip name in
      elim old [
        | none ↦ record d { name_to_ip = m }
        | some old_ip ↦ record d { name_to_ip = m; lru_cache = (lru.remove d.lru_cache old_ip).0 }
      ]

  unfoldable pub forget_ip : VirtualDns E → IpAddr → VirtualDns E
  forget_ip d ip =
      let (c, old) = lru.remove d.lru_cache ip in
      elim old [
        | none ↦ record d { lru_cache = c }
        | some old_name ↦ record d {
          lru_cache = c;
          name_to_ip = (names.remove d.name_to_ip old_name).0;
        }
      ]

  -- The insertions that end `restore_mapping` and both ways out of the allocation loop.
  unfoldable pub bind : VirtualDns E → IpAddr → Name → VirtualDns E
  bind d ip name = record d {
    lru_cache = lru.insert d.lru_cache ip name;
    name_to_ip = names.insert d.name_to_ip name ip;
  }

  unfoldable pub restore_mapping : VirtualDns E → IpAddr → Name → VirtualDns E × Bool
  unfolding forget_name forget_ip bind
  restore_mapping d ip raw_name =
      let name = canonical_name d raw_name in
      if is_empty name || ltb 253 (length name) || not (address_in_pool d ip)
      then (d, false)
      else (bind (forget_ip (forget_name d name) ip) ip name, true)

  unfoldable pub restore_mappings : VirtualDns E → List (IpAddr × Name) → Bool → VirtualDns E × Bool
  restore_mappings d [] repair_needed = (d, repair_needed)
  restore_mappings d ((ip, name) ∷ ms) repair_needed =
      let (d', restored) = restore_mapping d ip name in
      restore_mappings d' ms (repair_needed || not restored)

  unfoldable pub rewrite_persistence : VirtualDns E → VirtualDns E × Result Error Unit
  rewrite_persistence d = elim d.persistence [
    | none ↦ (d, ok tt)
    | some p ↦
        let (p', r) =
          rewrite codec d.network_addr d.broadcast_addr d.next_addr (lru.entries d.lru_cache) p in
        (record d { persistence = some p' }, r)
  ]

  -- After the append of a mapping: compact a journal that is mostly stale.
  unfoldable pub append_or_compact :
      VirtualDns E → PersistentCache → IpAddr → Name → VirtualDns E × Result Error Unit
  append_or_compact d p ip name =
      let (p', r) = append_mapping codec ip name p in
      let d' = record d { persistence = some p' } in
      elim r [
        | err e ↦ (d', err e)
        | ok _ ↦
            if should_compact p' (length (lru.entries d.lru_cache))
            then rewrite_persistence d'
            else (d', ok tt)
      ]

  unfoldable pub try_persist :
      VirtualDns E → PersistentCache → IpAddr → Name → VirtualDns E × Result Error Unit
  unfolding append_or_compact
  try_persist d p ip name =
      let (p', needs) = needs_rewrite p in
      let d' = record d { persistence = some p' } in
      elim needs [
        | err e ↦ (d', err e)
        | ok true ↦ rewrite_persistence d'
        | ok false ↦ append_or_compact d' p' ip name
      ]

  -- The warnings that are logged leave no trace here.
  unfoldable pub persist_mapping : VirtualDns E → IpAddr → Name → VirtualDns E
  unfolding try_persist
  persist_mapping d ip name = elim d.persistence [
    | none ↦ d
    | some p ↦
        let (d', r) = try_persist d p ip name in
        elim r [
          | ok _ ↦ d'
          | err e ↦
              (rewrite_persistence
                (record d' { persistence = Option.map mark_dirty d'.persistence })).0
        ]
  ]

  unfoldable pub retry_dirty_persistence : VirtualDns E → VirtualDns E
  retry_dirty_persistence d = elim d.persistence [
    | none ↦ d
    | some p ↦ if p.dirty then (rewrite_persistence d).0 else d
  ]

  pub lru_is_empty : VirtualDns E → Bool
  lru_is_empty d = elim (lru.entries d.lru_cache) [ [] ↦ true | _ ↦ false ]

  -- The number of mappings, if the rewrite went through.
  pub with_count : VirtualDns E × Result Error Unit → VirtualDns E × Result Error ℕ
  with_count (d, err e) = (d, err e)
  with_count (d, ok _) = (d, ok (length (lru.entries d.lru_cache)))

  unfoldable pub enable_persistence : VirtualDns E → Disk.Disk → VirtualDns E × Result Error ℕ
  unfolding lru_is_empty with_count
  enable_persistence d disk =
      let (p, result) = load codec d.network_addr d.broadcast_addr (Persistence.new disk) in
      elim result [
        | err e ↦ (d, err e)
        | ok missing ↦ with_count (
            rewrite_persistence (record d {
              next_addr =
                  if lru_is_empty d
                  then upper_half_start d.network_addr d.broadcast_addr
                  else d.next_addr;
              persistence = some p;
            }))
        | ok incompatible ↦ with_count (
            rewrite_persistence (record (clear_mappings d) {
              next_addr = upper_half_start d.network_addr d.broadcast_addr;
              persistence = some p;
            }))
        | ok (loaded cursor ms repair) ↦
            let (d', repair_needed) =
              restore_mappings (record (clear_mappings d) { next_addr = cursor }) ms repair in
            let d'' = record d' { persistence = some p } in
            if repair_needed
            then with_count (rewrite_persistence d'')
            else (d'', ok (length (lru.entries d''.lru_cache)))
      ]

  unfoldable pub touch_ip : VirtualDns E → IpAddr → VirtualDns E
  touch_ip d addr = record d { lru_cache = (lru.get d.lru_cache addr).0 }

  unfoldable pub resolve_ip : VirtualDns E → IpAddr → VirtualDns E × Option Name
  resolve_ip d addr = let (c, name) = lru.get d.lru_cache addr in (record d { lru_cache = c }, name)

  -- The vacant entry takes the name.
  unfoldable pub take_vacant : VirtualDns E → Name → VirtualDns E × Result Error IpAddr
  take_vacant d name = (persist_mapping (bind d d.next_addr name) d.next_addr name, ok d.next_addr)

  -- Every address is taken: the least recently used one changes its name.
  unfoldable pub recycle_lru : VirtualDns E → Name → VirtualDns E × Result Error IpAddr
  recycle_lru d name =
      let (c, victim) = lru.remove_lru d.lru_cache in
      elim victim [
        | none ↦ (record d { lru_cache = c }, err exhausted)
        | some (ip, old_name) ↦
            let freed = record d {
              lru_cache = c;
              name_to_ip = (names.remove d.name_to_ip old_name).0;
            } in
            (persist_mapping (bind freed ip name) ip name, ok ip)
      ]

  -- The address after `next_addr`: wrap before incrementing the final address.
  unfoldable pub advance : VirtualDns E → IpAddr
  advance d = if d.next_addr == d.broadcast_addr then d.network_addr else increment_ip d.next_addr

  -- The `loop` of `find_or_allocate_ip`; without fuel it stands still, with an error that the
  -- program does not have.
  unfoldable pub allocate_loop :
      ℕ → IpAddr → Name → VirtualDns E → VirtualDns E × Result Error IpAddr
  unfolding take_vacant recycle_lru advance bind
  allocate_loop zero started_at name d = (d, err out_of_fuel)
  allocate_loop (suc fuel) started_at name d = elim (lru.is_vacant d.lru_cache d.next_addr) [
    | true ↦ take_vacant d name
    | false ↦
        let d' = record d { next_addr = advance d } in
        elim (d'.next_addr == started_at) [
          | true ↦ recycle_lru d' name
          | false ↦ allocate_loop fuel started_at name d'
        ]
  ]

  -- As many rounds as the pool has addresses.
  abbrev pub pool_size : VirtualDns E → ℕ
  pool_size d = suc (value d.broadcast_addr - value d.network_addr)

  unfoldable pub find_or_allocate_ip : VirtualDns E → Name → VirtualDns E × Result Error IpAddr
  find_or_allocate_ip d raw_name =
      let name = canonical_name d raw_name in
      elim (names.get d.name_to_ip name) [
        | some ip ↦ (retry_dirty_persistence (touch_ip d ip), ok ip)
        | none ↦ allocate_loop (pool_size d) d.next_addr name d
      ]
