-- ===== src/VirtualDns/Restore.antt =====
-- `restore_mapping` of virtual_dns.rs: one line of the journal put back into the two maps.
use tun2proxy.VirtualDns.Views.{
  name_of, at, address_of, Inverse-cong, at_absent, at-none, name_of-bind, at_other,
}
use tun2proxy.Maps.{lookup, lookup-without}
use tun2proxy.VirtualDns.{
  Crates, VirtualDns, forget_ip, forget_name, Name, address_in_pool, restore_mapping, is_empty,
  canonical_name,
}
use tun2proxy.Prelude.{
  ◌≡◌, bytes_eq, refl, arith, Eq, Option, some, none, ap, ◌∙◌, beq_self, Option-cases, sym, inl,
  inr, true, false, ◌≢◌, length, ◌≤◌, ltb,
}
use tun2proxy.Ip.{ip_eq, IpAddr, ip_beq_iff}
use tun2proxy.VirtualDns.Invariant.{IsValid, IsPool-kept, IsValid-remove, IsValid-bind}

-- `f` without its value at `a`, if there is an `a`.
abbrev drop_at : {A B : Type 0} ⦃e : Eq A⦄ → Option A → (A → Option B) → A → Option B
drop_at none f = f
drop_at (some a) f = at a none f

module _ {E : Crates} (d : VirtualDns E) where
  open E use {lru, names}

  absent_kept :
      (m : names.HashMap) (c : lru.LruCache)
      → ((j : IpAddr) → lookup j (lru.entries c) ≡ name_of d j)
      → ((n : Name) → names.get m n ≡ address_of d n)
      → IsValid d
      → IsValid (record d { lru_cache = c; name_to_ip = m })
  absent_kept m c p q v = record {
    pool = IsPool-kept d v.pool;
    inverse = Inverse-cong p q v.inverse;
    pooled = λ j n h. unfold address_in_pool in v.pooled j n (sym (p j) ∙ h);
  }

  -- The name loses its address.
  forget_name_lem :
      (name : Name)
      → IsValid d
      → IsValid (forget_name E d name)
        × ((j : IpAddr)
            → name_of (forget_name E d name) j ≡ drop_at (address_of d name) (name_of d) j)
        × (address_of (forget_name E d name) name ≡ none)
  unfolding forget_name
  forget_name_lem name v =
      let removed = names.remove-get d.name_to_ip name in
      let m = (names.remove d.name_to_ip name).0 in
      let get_m = names.get-remove d.name_to_ip name in
      let gone : names.get m name ≡ none = get_m name ∙ rw (beq_self name) in
      elim (Option-cases (address_of d name)) [
        | inl unknown ↦
            rw (removed ∙ unknown, unknown, forget_name)
              (
                absent_kept m d.lru_cache (λ j. refl)
                    (λ n. get_m n ∙ at_absent (address_of d) name n unknown) v,
                λ j. refl,
                gone,
              )
        | inr (ip, known) ↦
            let p = λ (j : IpAddr).
              ap (lookup j) (lru.entries-remove d.lru_cache ip)
              ∙ lookup-without ip j (lru.entries d.lru_cache) in
            rw (removed ∙ known, known, forget_name)
              (IsValid-remove d ip name (v.inverse.back ip name known) p get_m v, p, gone)
      ]

  -- The address loses its name.
  forget_ip_lem :
      (ip : IpAddr)
      → IsValid d
      → IsValid (forget_ip E d ip)
        × ((j : IpAddr) → name_of (forget_ip E d ip) j ≡ at ip none (name_of d) j)
        × ((n : Name) → address_of d n ≡ none → address_of (forget_ip E d ip) n ≡ none)
  unfolding forget_ip
  forget_ip_lem ip v =
      let removed = lru.remove-lookup d.lru_cache ip in
      let c = (lru.remove d.lru_cache ip).0 in
      let p = λ (j : IpAddr).
        ap (lookup j) (lru.entries-remove d.lru_cache ip)
        ∙ lookup-without ip j (lru.entries d.lru_cache) in
      elim (Option-cases (name_of d ip)) [
        | inl unused ↦
            rw (removed ∙ unused, forget_ip)
              (
                absent_kept d.name_to_ip c (λ j. p j ∙ at_absent (name_of d) ip j unused)
                    (λ n. refl) v,
                p,
                λ n h. h,
              )
        | inr (name, there) ↦
            let get_m = names.get-remove d.name_to_ip name in
            rw (removed ∙ there, forget_ip)
              (
                IsValid-remove d ip name there p get_m v,
                p,
                λ n h. get_m n ∙ at-none (address_of d) name n h,
              )
      ]

module _ {E : Crates} (d : VirtualDns E) where
  open E use {lru, names}

  in_pool-forget_name :
      (name : Name) (a : IpAddr)
      → address_in_pool E (forget_name E d name) a ≡ address_in_pool E d a
  unfolding address_in_pool forget_name
  in_pool-forget_name name a = ground arith

  in_pool-forget_ip :
      (ip a : IpAddr) → address_in_pool E (forget_ip E d ip) a ≡ address_in_pool E d a
  unfolding address_in_pool forget_ip
  in_pool-forget_ip ip a = ground arith

  drop_at_other :
      (name : Name) (j : IpAddr) (n : Name)
      → IsValid d
      → n ≢ name
      → name_of d j ≡ some n
      → drop_at (address_of d name) (name_of d) j ≡ some n
  drop_at_other name j n v h there = elim (Option-cases (address_of d name)) [
    | inl unknown ↦ rw (unknown, drop_at) there
    | inr (k, known) ↦
        rw (known, drop_at) (ground (arith, ip_beq_iff k j, v.inverse.back k name known))
  ]

module _ {E : Crates} (d : VirtualDns E) (ip : IpAddr) (raw_name : Name) (v : IsValid d) where
  -- The test of `restore_mapping`.
  abbrev pub IsRestorable : Type 0
  IsRestorable =
      (is_empty (canonical_name E d raw_name) ≡ false)
      × (length (canonical_name E d raw_name) ≤ 253)
      × (address_in_pool E d ip ≡ true)

  restored :
      IsRestorable
      → ((restore_mapping E d ip raw_name).1 ≡ true)
        × IsValid (restore_mapping E d ip raw_name).0
        × (name_of (restore_mapping E d ip raw_name).0 ip ≡ some (canonical_name E d raw_name))
        × ((j : IpAddr) (n : Name)
            → j ≢ ip
            → n ≢ canonical_name E d raw_name
            → name_of d j ≡ some n
            → name_of (restore_mapping E d ip raw_name).0 j ≡ some n)
  unfolding restore_mapping
  restored (nonempty, short, inside) =
      let name = canonical_name E d raw_name in
      let fits : ltb 253 (length name) ≡ false = ground arith in
      let d1 = forget_name E d name in
      let (v1, names1, unknown1) = forget_name_lem d name v in
      let d2 = forget_ip E d1 ip in
      let (v2, names2, keeps2) = forget_ip_lem d1 ip v1 in
      let unused : name_of d2 ip ≡ none = names2 ip ∙ rw (beq_self ip) in
      let inside2 : address_in_pool E d2 ip ≡ true =
        in_pool-forget_ip d1 ip ip ∙ in_pool-forget_name d name ip ∙ inside in
      let after = name_of-bind d2 ip name in
      rw (nonempty, fits, inside)
        (
          refl,
          IsValid-bind d2 ip name v2 inside2 unused (keeps2 name unknown1),
          after ip ∙ rw (beq_self ip),
          λ j n other_ip other_name there.
              after j
              ∙ at_other (name_of d2) ip j (some name) other_ip
              ∙ names2 j
              ∙ at_other (name_of d1) ip j none other_ip
              ∙ names1 j
              ∙ drop_at_other d name j n v other_name there,
        )

  -- A restorable mapping is put into both maps, the state stays valid, and every mapping of another
  -- address and another name is left.
  pub restore_mapping_lem :
      IsRestorable
      → ((restore_mapping E d ip raw_name).1 ≡ true)
        × IsValid (restore_mapping E d ip raw_name).0
        × (name_of (restore_mapping E d ip raw_name).0 ip ≡ some (canonical_name E d raw_name))
        × (address_of (restore_mapping E d ip raw_name).0 (canonical_name E d raw_name) ≡ some ip)
        × ((j : IpAddr) (n : Name)
            → j ≢ ip
            → n ≢ canonical_name E d raw_name
            → name_of d j ≡ some n
            → name_of (restore_mapping E d ip raw_name).0 j ≡ some n)
  restore_mapping_lem h =
      let (yes_added, valid, there, keeps) = restored h in
      (yes_added, valid, there, valid.inverse.there ip (canonical_name E d raw_name) there, keeps)

  -- Any other mapping is refused, and nothing changes.
  pub restore_mapping_refused : ¬ IsRestorable → restore_mapping E d ip raw_name ≡ (d, false)
  unfolding restore_mapping
  restore_mapping_refused h = ground (arith, h)
