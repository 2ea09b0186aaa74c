-- ===== src/VirtualDns/Allocation.antt =====
-- virtual_dns.rs: which address `find_or_allocate_ip` takes for a new name.
use tun2proxy.VirtualDns.Pool.{
  InPool-address_in_pool, InPool, IsPool-cursor, address_in_pool_of-InPool, lo, hi,
}
use tun2proxy.Ip.{ip_eq, value}
use tun2proxy.VirtualDns.Views.{name_of, at, address_of, name_of-bind, at-none, at_twice}
use tun2proxy.Maps.{head, lookup-head, lookup, lookup-drop_head, head_of_lookup}
use mathlib.Core.Bool.{false≢true}
use tun2proxy.Prelude.{
  sym, if◌then◌else◌, refl, bytes_eq, ◌≡◌, true, Result, ok, some, none, ◌∙◌, ap, beq_self, ◌≢◌,
  inl, inr, ◌↔◌, arith, ◌==◌,
}
use tun2proxy.VirtualDns.{
  Name, Crates, VirtualDns, address_in_pool, canonical_name, bind, persist_mapping, take_vacant,
  recycle_lru, pool_size, find_or_allocate_ip, IpAddr, Error,
}
use tun2proxy.VirtualDns.Scan.{allocate_loop-LoopEnds, position_self}
use tun2proxy.VirtualDns.Saved.{SavedOnly, SavedOnly-persist}
use tun2proxy.VirtualDns.Invariant.{IsValid, IsValid-bind, IsValid-saved, IsValid-remove}

module _ {E : Crates} where
  open E use {lru, names}

  -- The address `ip` has been given to `name`, and nothing else has changed.
  pub record Assigned (d : VirtualDns E) (name : Name) (ip : IpAddr)
      (r : VirtualDns E × Result Error IpAddr) : Type 0 where
    pub result : r.1 ≡ ok ip
    pub inside : address_in_pool E d ip ≡ true
    pub valid : IsValid r.0
    pub names_after : (j : IpAddr) → name_of r.0 j ≡ at ip (some name) (name_of d) j

  pub name_of-saved :
      (d d' : VirtualDns E) → SavedOnly d d' → (j : IpAddr) → name_of d' j ≡ name_of d j
  name_of-saved d d' (p, e) j = rw e

  -- A free address takes the name.
  Assigned-bind :
      (d : VirtualDns E) (ip : IpAddr) (name : Name)
      → IsValid d
      → address_in_pool E d ip ≡ true
      → name_of d ip ≡ none
      → address_of d name ≡ none
      → Assigned d name ip (persist_mapping E (bind E d ip name) ip name, ok ip)
  Assigned-bind d ip name v inside free unknown =
      let b = bind E d ip name in
      let saved = SavedOnly-persist b ip name in
      record {
        result = refl;
        inside = inside;
        valid = IsValid-saved b saved (IsValid-bind d ip name v inside free unknown);
        names_after = λ j. name_of-saved b _ saved j ∙ name_of-bind d ip name j;
      }

  -- The least recently used address changes its name.
  Assigned-recycle :
      (d : VirtualDns E) (ip : IpAddr) (old name : Name)
      → IsValid d
      → head (lru.entries d.lru_cache) ≡ some (ip, old)
      → address_of d name ≡ none
      → Assigned d name ip (recycle_lru E d name)
  unfolding recycle_lru address_in_pool
  Assigned-recycle d ip old name v first unknown =
      let c = lru.remove_lru d.lru_cache in
      let m = (names.remove d.name_to_ip old).0 in
      let freed : VirtualDns E = record d { lru_cache = c.0; name_to_ip = m } in
      let there = lookup-head (lru.entries d.lru_cache) ip old first in
      let gone = λ (j : IpAddr).
        ap (lookup j) (lru.entries-remove_lru d.lru_cache)
        ∙ lookup-drop_head (lru.entries d.lru_cache) ip old j first (lru.distinct d.lru_cache) in
      let forgotten = λ (n : Name). names.get-remove d.name_to_ip old n in
      let r =
        Assigned-bind freed ip name (IsValid-remove d ip old there gone forgotten v)
          (v.pooled ip old there) (gone ip ∙ rw (beq_self ip))
          (forgotten name ∙ at-none (address_of d) old name unknown) in
      rw (lru.remove_lru-head d.lru_cache ∙ first, recycle_lru)
        (record {
          result = refl;
          inside = r.inside;
          valid = r.valid;
          names_after = λ j.
              r.names_after j
              ∙ ap (λ o. if ip == j then some name else o) (gone j)
              ∙ at_twice (name_of d) ip j (some name) none;
        })

  -- The addresses of the pool that have no name.
  abbrev pub IsFree : VirtualDns E → IpAddr → Type 0
  IsFree d a = (address_in_pool E d a ≡ true) × (name_of d a ≡ none)

  -- What the loop does for a name that is new: a free address, or the least recently used one of
  -- a pool with none.
  pub data Chosen (d : VirtualDns E) (ip : IpAddr) : Type 0 where
    free : IsFree d ip → Chosen d ip
    recycled :
        (old : Name)
        → head (lru.entries d.lru_cache) ≡ some (ip, old)
        → ((a : IpAddr) → address_in_pool E d a ≡ true → name_of d a ≢ none)
        → Chosen d ip

  vacant_none :
      (d : VirtualDns E) (a : IpAddr) → (lru.is_vacant d.lru_cache a ≡ true) ↔ (name_of d a ≡ none)
  vacant_none d a = ground (arith, lru.vacant-lookup d.lru_cache a)

  IsValid-cursor :
      (d : VirtualDns E) (a : IpAddr)
      → IsValid d
      → InPool d a
      → IsValid (record d { next_addr = a })
  unfolding address_in_pool
  IsValid-cursor d a v w = record {
    pool = IsPool-cursor d a v.pool w;
    inverse = v.inverse;
    pooled = v.pooled;
  }

  -- The loop found a free address.
  Assigned-vacant :
      (d : VirtualDns E) (a : IpAddr) (name : Name)
      → IsValid d
      → InPool d a
      → name_of d a ≡ none
      → address_of d name ≡ none
      → Assigned d name a (take_vacant E (record d { next_addr = a }) name)
  unfolding take_vacant address_in_pool
  Assigned-vacant d a name v w vacant unknown =
      let r =
        Assigned-bind (record d { next_addr = a }) a name (IsValid-cursor d a v w)
          (address_in_pool_of-InPool d a v.pool.family w) vacant unknown in
      record { result = refl; inside = r.inside; valid = r.valid; names_after = r.names_after }

  pub find-new :
      (d : VirtualDns E) (name : Name)
      → IsValid d
      → address_of d (canonical_name E d name) ≡ none
      → (ip : IpAddr) × Chosen d ip
        × Assigned d (canonical_name E d name) ip (find_or_allocate_ip E d name)
  unfolding find_or_allocate_ip
  find-new d name v unknown =
      let n = canonical_name E d name in
      let p = v.pool in
      let s = d.next_addr in
      let w = InPool-address_in_pool d s p.family p.cursor in
      let at_start = position_self (lo d) (hi d) (value s) in
      elim (allocate_loop-LoopEnds s n (pool_size E d) d p w (omega arith)
        (λ a wa h. absurd (omega (arith, at_start)))) [
          | inl (a, wa, vacant, e) ↦
              let none_there = (vacant_none d a).0 vacant in
              (
                a,
                free (address_in_pool_of-InPool d a p.family wa, none_there),
                rw (unknown, find_or_allocate_ip, e)
                    (Assigned-vacant d a n v wa none_there unknown),
              )
          | inr (full, e) ↦
              let taken =
                λ (a : IpAddr) (inside : address_in_pool E d a ≡ true)
                    (none_there : name_of d a ≡ none).
                  false≢true (
                    sym (full a (InPool-address_in_pool d a p.family inside))
                    ∙ (vacant_none d a).1 none_there) in
              let (ip, old, first) =
                head_of_lookup (lru.entries d.lru_cache) s (taken s p.cursor) in
              (
                ip,
                recycled old first taken,
                rw (unknown, find_or_allocate_ip, e) (Assigned-recycle d ip old n v first unknown),
              )
        ]
