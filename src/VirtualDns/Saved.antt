-- ===== src/VirtualDns/Saved.antt =====
-- virtual_dns.rs: the calls of the journal that save a mapping.
use mathlib.Core.Option
use tun2proxy.Prelude.{
  ◌≡◌, refl, ap, ◌∙◌, true, false, Option, none, some, arith, Option-cases, Bool-cases, inl, inr,
  length, Result-cases,
}
use tun2proxy.Ip.{IpAddr, ip_eq}
use tun2proxy.VirtualDns.{
  Name, Crates, VirtualDns, rewrite_persistence, append_or_compact, try_persist, persist_mapping,
  retry_dirty_persistence,
}
use tun2proxy.VirtualDns.Persistence.{
  PersistentCache, rewrite, append_mapping, needs_rewrite, should_compact, mark_dirty,
}

module _ {E : Crates} where
  open E use {lru}

  -- Saving writes to the journal alone.
  abbrev pub SavedOnly : VirtualDns E → VirtualDns E → Type 0
  SavedOnly d d' = (p : Option PersistentCache) × (d' ≡ record d { persistence = p })

  SavedOnly-trans : (d d' d'' : VirtualDns E) → SavedOnly d d' → SavedOnly d' d'' → SavedOnly d d''
  SavedOnly-trans d d' d'' (p, e) (q, f) =
      (q, f ∙ ap {A = VirtualDns E} {B = VirtualDns E} (λ x. record x { persistence = q }) e)

  SavedOnly-rewrite : (d : VirtualDns E) → SavedOnly d (rewrite_persistence E d).0
  unfolding rewrite_persistence
  SavedOnly-rewrite d = elim (Option-cases d.persistence) [
    | inl e ↦ (none, ground arith)
    | inr (p, e) ↦ (
      some
          (rewrite E.codec d.network_addr d.broadcast_addr d.next_addr (lru.entries d.lru_cache)
            p).0,
      ground arith,
    )
  ]

  SavedOnly-append :
      (d : VirtualDns E) (p : PersistentCache) (ip : IpAddr) (name : Name)
      → SavedOnly d (append_or_compact E d p ip name).0
  unfolding append_or_compact
  SavedOnly-append d p ip name =
      let p' = (append_mapping E.codec ip name p).0 in
      let d' : VirtualDns E = record d { persistence = some p' } in
      elim (Result-cases (append_mapping E.codec ip name p).1) [
        | inr (e, failed) ↦ rw (failed, append_or_compact) (some p', refl)
        | inl (u, done) ↦ elim (Bool-cases (should_compact p' (length (lru.entries d.lru_cache)))) [
          | inl yes' ↦
              rw (done, yes', append_or_compact)
                (SavedOnly-trans d d' _ (some p', refl) (SavedOnly-rewrite d'))
          | inr no' ↦ rw (done, no', append_or_compact) (some p', refl)
        ]
      ]

  SavedOnly-try :
      (d : VirtualDns E) (p : PersistentCache) (ip : IpAddr) (name : Name)
      → SavedOnly d (try_persist E d p ip name).0
  SavedOnly-try d p ip name =
      let p' = (needs_rewrite p).0 in
      let d' : VirtualDns E = record d { persistence = some p' } in
      elim (Result-cases (needs_rewrite p).1) [
        | inr (e, failed) ↦ unfold try_persist in rw (failed, try_persist) (some p', refl)
        | inl (true, r) ↦
            unfold try_persist in
            rw (r, try_persist) (SavedOnly-trans d d' _ (some p', refl) (SavedOnly-rewrite d'))
        | inl (false, r) ↦
            unfold try_persist in
            rw (r, try_persist)
              (SavedOnly-trans d d' _ (some p', refl) (SavedOnly-append d' p' ip name))
      ]

  pub SavedOnly-persist :
      (d : VirtualDns E) (ip : IpAddr) (name : Name) → SavedOnly d (persist_mapping E d ip name)
  unfolding persist_mapping
  SavedOnly-persist d ip name = elim (Option-cases d.persistence) [
    | inl absent ↦ (none, ground arith)
    | inr (p, there) ↦
        let d' = (try_persist E d p ip name).0 in
        let marked : VirtualDns E = record d' {
          persistence = Option.map mark_dirty d'.persistence;
        } in
        elim (Result-cases (try_persist E d p ip name).1) [
          | inl (u, done) ↦ rw (there, done, persist_mapping) (SavedOnly-try d p ip name)
          | inr (e, failed) ↦
              rw (there, failed, persist_mapping)
                (SavedOnly-trans d marked _
                  (SavedOnly-trans d d' marked (SavedOnly-try d p ip name)
                    (Option.map mark_dirty d'.persistence, refl))
                  (SavedOnly-rewrite marked))
        ]
  ]

  pub SavedOnly-retry : (d : VirtualDns E) → SavedOnly d (retry_dirty_persistence E d)
  unfolding retry_dirty_persistence
  SavedOnly-retry d = elim (Option-cases d.persistence) [
    | inl absent ↦ (none, ground arith)
    | inr (p, there) ↦ elim (Bool-cases p.dirty) [
      | inl dirty ↦ rw (there, dirty, retry_dirty_persistence) (SavedOnly-rewrite d)
      | inr clean ↦ (d.persistence, ground arith)
    ]
  ]
