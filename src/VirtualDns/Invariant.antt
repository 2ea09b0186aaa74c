-- ===== src/VirtualDns/Invariant.antt =====
-- The invariant of the resolver in virtual_dns.rs: the cache and the reverse map are inverse to one
-- another, and no address lies outside the pool.
use tun2proxy.Prelude.{◌≡◌, refl, sym, ◌∙◌, true, Option, none, some, bytes_eq, inl, inr}
use tun2proxy.Ip.{IpAddr, ip_eq}
use tun2proxy.Maps.{lookup}
use tun2proxy.VirtualDns.{Name, Crates, VirtualDns, address_in_pool, bind, touch_ip}
use tun2proxy.VirtualDns.Persistence.{PersistentCache}
use tun2proxy.VirtualDns.Pool.{IsPool}
use tun2proxy.VirtualDns.Saved.{SavedOnly}
use tun2proxy.VirtualDns.Views.{
  Inverse, Inverse-bind, Inverse-remove, Inverse-cong, at, at_cases, name_of, address_of,
  name_of-bind, address_of-bind, name_of-touch,
}

pub record IsValid {E : Crates} (d : VirtualDns E) : Type 0 where
  pub pool : IsPool d
  pub inverse : Inverse (name_of d) (address_of d)
  pub pooled :
      (ip : IpAddr) (name : Name) → name_of d ip ≡ some name → address_in_pool E d ip ≡ true

module _ {E : Crates} (d : VirtualDns E) where
  open E use {lru, names}

  -- Neither the maps nor the journal are part of the pool.
  pub IsPool-kept :
      {c : lru.LruCache} {m : names.HashMap} {p : Option PersistentCache}
      → IsPool d
      → IsPool (record d { lru_cache = c; name_to_ip = m; persistence = p })
  unfolding address_in_pool
  IsPool-kept p = record {
    family = p.family;
    ordered = p.ordered;
    fits = p.fits;
    cursor = p.cursor;
  }

  -- The journal is no part of the invariant.
  pub IsValid-saved : {d' : VirtualDns E} → SavedOnly d d' → IsValid d → IsValid d'
  unfolding address_in_pool
  IsValid-saved (p, e) v =
      rw e (record { pool = IsPool-kept v.pool; inverse = v.inverse; pooled = v.pooled })

  -- A free address takes a name that has none.
  pub IsValid-bind :
      (ip : IpAddr) (name : Name)
      → IsValid d
      → address_in_pool E d ip ≡ true
      → name_of d ip ≡ none
      → address_of d name ≡ none
      → IsValid (bind E d ip name)
  unfolding bind address_in_pool
  IsValid-bind ip name v inside free unknown = record {
    pool = IsPool-kept v.pool;
    inverse =
        Inverse-cong (name_of-bind d ip name) (address_of-bind d ip name)
          (Inverse-bind ip name v.inverse free unknown);
    pooled = λ j n h. elim (at_cases (name_of d) ip (some name) j) [
      | inl same ↦ rw (← same) inside
      | inr other ↦ v.pooled j n (sym other ∙ sym (name_of-bind d ip name j) ∙ h)
    ];
  }

  -- Using an address keeps the invariant.
  pub IsValid-touch : (ip : IpAddr) → IsValid d → IsValid (touch_ip E d ip)
  unfolding touch_ip address_in_pool
  IsValid-touch ip v = record {
    pool = IsPool-kept v.pool;
    inverse = Inverse-cong (name_of-touch d ip) (λ n. refl) v.inverse;
    pooled = λ j n h. v.pooled j n (sym (name_of-touch d ip j) ∙ h);
  }

module _ {E : Crates} (d : VirtualDns E) where
  open E use {lru, names}

  -- The removal of a mapping from both maps.
  pub IsValid-remove :
      {c : lru.LruCache} {m : names.HashMap} (ip : IpAddr) (name : Name)
      → name_of d ip ≡ some name
      → ((j : IpAddr) → lookup j (lru.entries c) ≡ at ip none (name_of d) j)
      → ((n : Name) → names.get m n ≡ at name none (address_of d) n)
      → IsValid d
      → IsValid (record d { lru_cache = c; name_to_ip = m })
  unfolding address_in_pool
  IsValid-remove ip name there p q v = record {
    pool = IsPool-kept d v.pool;
    inverse = Inverse-cong p q (Inverse-remove ip name v.inverse there);
    pooled = λ j n h. elim (at_cases (name_of d) ip none j) [
      | inl same ↦ v.pooled j name (rw (← same) there)
      | inr other ↦ v.pooled j n (sym other ∙ sym (p j) ∙ h)
    ];
  }
