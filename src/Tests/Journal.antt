-- ===== src/Tests/Journal.antt =====
-- Inputs for the theorems about the journal of virtual_dns.rs and the restoring of its mappings.
use tun2proxy.VirtualDns.Restore.{restore_mapping_lem}
use tun2proxy.VirtualDns.Persistence.Files.{load-rewrite, rewrite_atomic}
use tun2proxy.VirtualDns.Persistence.Format.{journal}
use tun2proxy.Ip.{IpAddr, ip_eq}
use tun2proxy.VirtualDns.Views.{name_of, address_of}
use tun2proxy.VirtualDns.Invariant.{IsValid}
use tun2proxy.VirtualDns.{resolve_ip, new, clear_mappings, Name, restore_mapping, canonical_name}
use tun2proxy.Prelude.{◌≡◌, ◌≢◌, refl, arith, [], ◌∷◌, true, false, none, some, ok, err, ◌⊎◌, List}
use tun2proxy.Tests.Resolver.{first, last, name_c, one, one-IsValid, resolver_program}
use tun2proxy.Tests.Crate.{crates, codec}
use tun2proxy.VirtualDns.Disk.{
  fails, works, Disk, create_dir_all, io, Bytes, create_temporary, write_temporary, replace_file,
  rename, syscall, settle, next_outcome,
}
use tun2proxy.VirtualDns.Persistence.{
  PersistentCache, mapping, load, rewrite, loaded, new as new_cache,
}

-- A disk on which the third of the coming calls fails, and one that works.
abbrev tired : Disk
tired = record {
  windows = false;
  file = some (1 ∷ 2 ∷ []);
  temporary = none;
  outcomes = works ∷ works ∷ fails 3 ∷ [];
}

abbrev sound : Disk
sound = record tired { outcomes = [] }

abbrev clean : Disk → PersistentCache
clean disk = record { disk = disk; journal_records = 0; dirty = false }

abbrev mappings : List (IpAddr × Bytes)
mappings = (first, name_c) ∷ []

rewrite_atomic_example :
    (((rewrite codec first last last mappings (clean tired)).1 ≡ ok tt)
      × ((rewrite codec first last last mappings (clean tired)).0.disk.file
          ≡ some (journal codec first last last mappings))
      × ((rewrite codec first last last mappings (clean tired)).0.dirty ≡ false))
    ⊎ (((rewrite codec first last last mappings (clean tired)).1 ≡ err io)
        × ((rewrite codec first last last mappings (clean tired)).0.disk.file ≡ some (1 ∷ 2 ∷ []))
        × ((rewrite codec first last last mappings (clean tired)).0.dirty ≡ false))
rewrite_atomic_example = rewrite_atomic codec first last last mappings (clean tired) refl

abbrev journal_program : Unit {0}
unfolding rewrite create_dir_all create_temporary write_temporary replace_file rename syscall settle
    next_outcome
journal_program = tt

load-rewrite_example :
    (load codec first last (
      new_cache
        (record (rewrite codec first last last mappings (clean sound)).0.disk { outcomes = [] }))).1
    ≡ ok (loaded last mappings false)
unfolding journal_program tun2proxy.VirtualDns.Persistence.address_in_pool
load-rewrite_example = load-rewrite codec first last last mappings (clean sound) refl refl refl

restore_mapping_lem_example :
    ((restore_mapping crates one last name_c).1 ≡ true)
    × IsValid (restore_mapping crates one last name_c).0
    × (name_of (restore_mapping crates one last name_c).0 last
        ≡ some (canonical_name crates one name_c))
    × (address_of (restore_mapping crates one last name_c).0 (canonical_name crates one name_c)
        ≡ some last)
    × ((j : IpAddr) (n : Name)
        → j ≢ last
        → n ≢ canonical_name crates one name_c
        → name_of one j ≡ some n
        → name_of (restore_mapping crates one last name_c).0 j ≡ some n)
unfolding resolver_program
restore_mapping_lem_example =
    restore_mapping_lem one last name_c one-IsValid (refl, omega arith, refl)
