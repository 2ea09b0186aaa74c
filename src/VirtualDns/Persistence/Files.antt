-- ===== src/VirtualDns/Persistence/Files.antt =====
-- virtual_dns/persistence.rs: whole files, written by `rewrite` and read by `load`, and failing calls.
use tun2proxy.VirtualDns.Persistence.Format.{journal, read_journal-journal}
use tun2proxy.Ip.{IpAddr}
use tun2proxy.VirtualDns.Persistence.{
  Codec, IpAddr, PersistentCache, rewrite, address_in_pool, load, new, loaded,
}
use tun2proxy.Prelude.{
  [], ◌∷◌, ok, err, ◌≡◌, refl, arith, ℕ, List, ok, ◌⊎◌, err, ◌∷◌, inl, inr, false, some, ap, Option,
  Result, none, take, subst, sym, true,
}
use tun2proxy.VirtualDns.Disk.{
  ◌>>◌, works, fails, io, Disk, syscall, Outcome, io, fails, next_outcome, create_dir_all, Bytes,
  create_temporary, Io, write_temporary, replace_file, rename, settle, Error, resume,
}

next_outcome-nil :
    (d : Disk) → d.outcomes ≡ [] → next_outcome d ≡ (record d { outcomes = [] }, works)
unfolding next_outcome
next_outcome-nil d e = ground arith

next_outcome-cons :
    (d : Disk) (o : Outcome) (os : List Outcome)
    → d.outcomes ≡ o ∷ os
    → next_outcome d ≡ (record d { outcomes = os }, o)
unfolding next_outcome
next_outcome-cons d o os e = ground arith

syscall_cases :
    (change : Disk → Disk) (partial : ℕ → Disk → Disk) (d : Disk)
    → (os : List Outcome) × ((syscall change partial d
          ≡ (change (record d { outcomes = os }), ok tt))
        ⊎ ((n : ℕ) × (syscall change partial d ≡ (partial n (record d { outcomes = os }), err io))))
unfolding syscall settle
syscall_cases change partial d = go d d.outcomes refl
  where
    go :
        (d : Disk) (o : List Outcome)
        → d.outcomes ≡ o
        → (os : List Outcome) × ((syscall change partial d
              ≡ (change (record d { outcomes = os }), ok tt))
            ⊎ ((n : ℕ) × (syscall change partial d
                  ≡ (partial n (record d { outcomes = os }), err io))))
    go d [] e = ([], inl (ap (settle change partial) (next_outcome-nil d e)))
    go d (works ∷ os) e = (os, inl (ap (settle change partial) (next_outcome-cons d works os e)))
    go d (fails n ∷ os) e =
        (os, inr (n, ap (settle change partial) (next_outcome-cons d (fails n) os e)))

-- The file system calls of `rewrite`, for a content.
abbrev write_all : Bytes → Io Unit
write_all content = do create_dir_all; create_temporary; write_temporary content; replace_file

-- Either the calls went through and the file has the new content, or one failed and the file is
-- the old one.
abbrev pub IsAtomic : Bytes → Option Bytes → Disk × Result Error Unit → Type 0
IsAtomic content old r =
    ((r.1 ≡ ok tt) × (r.0.file ≡ some content)) ⊎ ((r.1 ≡ err io) × (r.0.file ≡ old))

module _ (content : Bytes) (old : Option Bytes) where
  -- A call that fails, or goes on with `k`.
  earlier_call :
      (change : Disk → Disk) (partial : ℕ → Disk → Disk) (k : Io Unit) (d : Disk)
      → ((os : List Outcome) → IsAtomic content old (k (change (record d { outcomes = os }))))
      → ((n : ℕ) (os : List Outcome) → (partial n (record d { outcomes = os })).file ≡ old)
      → IsAtomic content old ((syscall change partial >> k) d)
  earlier_call change partial k d done failed =
      let (os, r) = syscall_cases change partial d in
      let on : Disk × Result Error Unit → Disk × Result Error Unit = resume (λ _. k) in
      elim r [
        | inl e ↦ subst (IsAtomic content old) (sym (ap on e)) (done os)
        | inr (n, e) ↦ subst (IsAtomic content old) (sym (ap on e)) (inr (refl, failed n os))
      ]

  -- On the other systems than Windows the rename replaces the old file at once.
  replace_call :
      (d : Disk)
      → d.windows ≡ false
      → d.temporary ≡ some content
      → d.file ≡ old
      → IsAtomic content old (replace_file d)
  unfolding replace_file rename
  replace_call d unix written before =
      let (os, r) =
        syscall_cases (λ x. record x { file = x.temporary; temporary = none }) (λ n x. x) d in
      elim r [
        | inl e ↦ simp (unix, e) (inl (refl, written))
        | inr (n, e) ↦ simp (unix, e) (inr (refl, before))
      ]

  write_call :
      (d : Disk)
      → d.windows ≡ false
      → d.file ≡ old
      → IsAtomic content old ((write_temporary content >> replace_file) d)
  unfolding write_temporary
  write_call d unix before =
      earlier_call (λ x. record x { temporary = some content })
        (λ n x. record x { temporary = some (take n content) }) replace_file d
        (λ os. replace_call (record d { temporary = some content; outcomes = os }) unix refl before)
        (λ n os. before)

  write_all-IsAtomic :
      (d : Disk) → d.windows ≡ false → d.file ≡ old → IsAtomic content old (write_all content d)
  unfolding create_dir_all create_temporary
  write_all-IsAtomic d unix before =
      earlier_call (λ x. x) (λ n x. x) (do create_temporary; write_temporary content; replace_file)
        d
        (λ os.
          earlier_call (λ x. record x { temporary = some [] }) (λ n x. x)
            (do write_temporary content; replace_file) (record d { outcomes = os })
            (λ os'. write_call (record d { temporary = some []; outcomes = os' }) unix before)
            (λ n os'. before))
        (λ n os. before)

module _ (codec : Codec) (network broadcast cursor : IpAddr) (ms : List (IpAddr × Bytes)) where
  -- On other systems than Windows a rewrite is atomic, whatever calls fail: it succeeds with the
  -- journal of the header and all mappings in the file and a clean cache, or it fails with the file
  -- as it was.
  pub rewrite_atomic :
      (p : PersistentCache)
      → p.disk.windows ≡ false
      → (((rewrite codec network broadcast cursor ms p).1 ≡ ok tt)
          × ((rewrite codec network broadcast cursor ms p).0.disk.file
              ≡ some (journal codec network broadcast cursor ms))
          × ((rewrite codec network broadcast cursor ms p).0.dirty ≡ false))
        ⊎ (((rewrite codec network broadcast cursor ms p).1 ≡ err io)
            × ((rewrite codec network broadcast cursor ms p).0.disk.file ≡ p.disk.file)
            × ((rewrite codec network broadcast cursor ms p).0.dirty ≡ p.dirty))
  unfolding rewrite
  rewrite_atomic p unix =
      elim (write_all-IsAtomic (journal codec network broadcast cursor ms) p.disk.file p.disk unix
        refl) [
          | inl (done, file) ↦ rw (done, rewrite) (inl (refl, file, refl))
          | inr (failed, file) ↦ rw (failed, rewrite) (inr (refl, file, refl))
        ]

  load-journal :
      (d : Disk)
      → address_in_pool cursor network broadcast ≡ true
      → (load codec network broadcast (
          new (record d {
            file = some (journal codec network broadcast cursor ms);
            outcomes = [];
          }))).1
        ≡ ok (loaded cursor ms false)
  unfolding load new
  load-journal d inside = ap ok (read_journal-journal codec network broadcast cursor ms _ inside)

  -- Where rename replaces the target, a restart on a working disk loads what a successful rewrite
  -- wrote: the allocation cursor, where it lies in the pool, and the mappings in their order, with
  -- nothing to repair.
  pub load-rewrite :
      (p : PersistentCache)
      → p.disk.windows ≡ false
      → address_in_pool cursor network broadcast ≡ true
      → (rewrite codec network broadcast cursor ms p).1 ≡ ok tt
      → (load codec network broadcast
          (new (record (rewrite codec network broadcast cursor ms p).0.disk { outcomes = [] }))).1
        ≡ ok (loaded cursor ms false)
  load-rewrite p unix inside done = elim (rewrite_atomic p unix) [
    | inr (failed, file, dirty) ↦ cc
    | inl (worked, file, dirty) ↦
        let d = (rewrite codec network broadcast cursor ms p).0.disk in
        subst
          (λ f.
            (load codec network broadcast (new (record d { file = f; outcomes = [] }))).1
            ≡ ok (loaded cursor ms false))
          (sym file) (load-journal d inside)
  ]
