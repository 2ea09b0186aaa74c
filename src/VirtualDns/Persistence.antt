-- ===== src/VirtualDns/Persistence.antt =====
-- virtual_dns/persistence.rs: the journal of fake-IP mappings, one record on a line.
pub mod Format
pub mod Files
use tun2proxy.Prelude.{
  ℕ, zero, suc, ◌+◌, ◌-◌, ◌*◌, ◌^◌, Bool, true, false, ◌&&◌, ◌||◌, Option, none, some, List, [],
  ◌∷◌, ◌++◌, ◌==◌, bool_eq, nat_eq, Result, ok, err, length, take, ltb, leb, eqb, if◌then◌else◌,
  map, ◌≡◌, ◌≢◌, ◌≤◌,
}
use tun2proxy.Ip.{IpAddr, ip_eq, ip_leb, is_ipv4}
use tun2proxy.VirtualDns.Disk.{
  Bytes, Error, io, Disk, Outcome, works, fails, Io, ◌>>=◌, ◌>>◌, next_outcome, create_dir_all,
  create_temporary, write_temporary, append_file, replace_file,
}

abbrev pub cache_version : ℕ
cache_version = 1

abbrev pub compact_stale_records : ℕ
compact_stale_records = 1024

-- usize on the 64-bit targets
abbrev pub usize_max : ℕ
usize_max = 2 ^ 64 - 1

abbrev pub saturating_add : ℕ → ℕ → ℕ
saturating_add a b = if ltb usize_max (a + b) then usize_max else a + b

abbrev pub saturating_mul : ℕ → ℕ → ℕ
saturating_mul a b = if ltb usize_max (a * b) then usize_max else a * b

-- A line of the journal: `OwnedCacheRecord` as it is read, `BorrowedCacheRecord` as it is written.
pub data CacheRecord : Type 0 where
  header : ℕ → IpAddr → IpAddr → IpAddr → CacheRecord
  mapping : IpAddr → Bytes → CacheRecord

abbrev pub Printable : Bytes → Type 0
Printable [] = Unit
Printable (b ∷ bs) = (32 ≤ b) × Printable bs

-- serde_json's reader and writer, and the UTF-8 test of `BufRead::lines`. A record is one line of
-- text with its control characters escaped, and reading it gives it back.
pub record Codec : Type 0 where
  pub to_writer : CacheRecord → Bytes
  pub from_str : Bytes → Option CacheRecord
  pub is_utf8 : Bytes → Bool
  pub from_str-to_writer : (r : CacheRecord) → from_str (to_writer r) ≡ some r
  pub to_writer-Printable : (r : CacheRecord) → Printable (to_writer r)
  pub to_writer-ne-nil : (r : CacheRecord) → to_writer r ≢ []
  pub to_writer-utf8 : (r : CacheRecord) → is_utf8 (to_writer r) ≡ true

unfoldable pub address_in_pool : IpAddr → IpAddr → IpAddr → Bool
address_in_pool ip network broadcast =
    (is_ipv4 ip == is_ipv4 network) && ip_leb network ip && ip_leb ip broadcast

pub data LoadResult : Type 0 where
  missing incompatible : LoadResult
  loaded : IpAddr → List (IpAddr × Bytes) → Bool → LoadResult

-- The path is that of the disk's `file`; its temporary path is `temporary`.
pub record PersistentCache : Type 0 where
  pub disk : Disk
  pub journal_records : ℕ
  pub dirty : Bool

unfoldable pub new : Disk → PersistentCache
new disk = record { disk = disk; journal_records = 0; dirty = false }

-- `BufRead::lines`: a newline ends a line, a carriage return before it goes too, and the last line
-- needs no newline. `line` holds what is read of the current line.
strip_cr : Bytes → Bytes
strip_cr [] = []
strip_cr (b ∷ []) = if eqb b 13 then [] else b ∷ []
strip_cr (b ∷ c ∷ bs) = b ∷ strip_cr (c ∷ bs)

-- What the end of the file makes of the current line.
last_line : Bytes → List Bytes
last_line [] = []
last_line (b ∷ line) = (b ∷ line) ∷ []

unfoldable pub lines : Bytes → Bytes → List Bytes
unfolding strip_cr last_line
lines line [] = last_line line
lines line (b ∷ bs) = elim (eqb b 10) [
  | true ↦ strip_cr line ∷ lines [] bs
  | false ↦ lines (line ++ b ∷ []) bs
]

-- What the loop of `load` has gathered.
pub record Scan : Type 0 where
  pub records : ℕ
  pub mappings : List (IpAddr × Bytes)
  pub repair_needed : Bool

module _ (codec : Codec) where
  open codec use {to_writer, from_str, is_utf8}

  -- The lines as the iterator gives them: `none` is an error, of the disk after so many lines or
  -- of the text.
  unfoldable pub read_lines : Outcome → List Bytes → List (Option Bytes)
  read_lines (fails zero) ls = none ∷ []
  read_lines works [] = []
  read_lines works (l ∷ ls) = (if is_utf8 l then some l else none) ∷ read_lines works ls
  read_lines (fails (suc n)) [] = none ∷ []
  read_lines (fails (suc n)) (l ∷ ls) =
      (if is_utf8 l then some l else none) ∷ read_lines (fails n) ls

  -- One round of the loop: an empty line, or one that is no mapping, asks for a repair.
  unfoldable pub scan_line : Bytes → Scan → Scan
  scan_line [] s = record s { repair_needed = true }
  scan_line (b ∷ bs) s = elim (from_str (b ∷ bs)) [
    | some (mapping ip name) ↦ record s {
      records = saturating_add s.records 1;
      mappings = s.mappings ++ (ip, name) ∷ [];
    }
    | _ ↦ record s { repair_needed = true }
  ]

  unfoldable pub scan_lines : List (Option Bytes) → Scan → Scan
  unfolding scan_line
  scan_lines [] s = s
  scan_lines (none ∷ ls) s = record s { repair_needed = true }
  scan_lines (some l ∷ ls) s = scan_lines ls (scan_line l s)

  -- The first line: the allocation cursor, if the header is one for this pool.
  unfoldable pub read_header : IpAddr → IpAddr → List (Option Bytes) → Option IpAddr
  unfolding address_in_pool
  read_header network broadcast [] = none
  read_header network broadcast (none ∷ ls) = none
  read_header network broadcast (some l ∷ ls) = elim (from_str l) [
    | some (header version cached_network cached_broadcast cursor) ↦
        if version == cache_version
          && cached_network == network
          && cached_broadcast == broadcast
          && address_in_pool cursor network broadcast
        then some cursor
        else none
    | _ ↦ none
  ]

  unfoldable pub tail : List (Option Bytes) → List (Option Bytes)
  tail [] = []
  tail (l ∷ ls) = ls

  -- What `load` makes of the file's lines.
  unfoldable pub read_journal :
      IpAddr → IpAddr → List (Option Bytes) → PersistentCache → PersistentCache × LoadResult
  unfolding read_header scan_lines tail
  read_journal network broadcast ls p = elim (read_header network broadcast ls) [
    | none ↦ (p, incompatible)
    | some cursor ↦
        let s =
          scan_lines (tail ls) (record { records = 0; mappings = []; repair_needed = false }) in
        (record p { journal_records = s.records }, loaded cursor s.mappings s.repair_needed)
  ]

  -- Two system calls: the file is opened, and read.
  unfoldable pub load :
      IpAddr → IpAddr → PersistentCache → PersistentCache × Result Error LoadResult
  unfolding read_journal lines read_lines next_outcome
  load network broadcast p =
      let (disk, opening) = next_outcome p.disk in
      let reset : PersistentCache = record { disk = disk; journal_records = 0; dirty = false } in
      elim opening [
        | fails n ↦ (reset, err io)
        | works ↦ elim disk.file [
          | none ↦ (reset, ok missing)
          | some bytes ↦
              let (disk', reading) = next_outcome disk in
              let (p', result) =
                read_journal network broadcast (read_lines reading (lines [] bytes))
                  (record reset { disk = disk' }) in
              (p', ok result)
        ]
      ]

  unfoldable pub write_cache_record : CacheRecord → Bytes
  write_cache_record r = to_writer r ++ 10 ∷ []

  unfoldable pub append_mapping :
      IpAddr → Bytes → PersistentCache → PersistentCache × Result Error Unit
  unfolding write_cache_record append_file
  append_mapping ip name p =
      let (disk, r) = append_file (write_cache_record (mapping ip name)) p.disk in
      elim r [
        | err e ↦ (record p { disk = disk }, err e)
        | ok _ ↦ (
          record {
            disk = disk;
            journal_records = saturating_add p.journal_records 1;
            dirty = false;
          },
          ok tt,
        )
      ]

  unfoldable pub write_mappings : List (IpAddr × Bytes) → Bytes
  unfolding write_cache_record
  write_mappings [] = []
  write_mappings ((ip, name) ∷ ms) = write_cache_record (mapping ip name) ++ write_mappings ms

  unfoldable pub rewrite :
      IpAddr
      → IpAddr
      → IpAddr
      → List (IpAddr × Bytes)
      → PersistentCache
      → PersistentCache × Result Error Unit
  unfolding write_cache_record write_mappings create_dir_all create_temporary write_temporary
      replace_file
  rewrite network broadcast cursor ms p =
      let content =
        write_cache_record (header cache_version network broadcast cursor) ++ write_mappings ms in
      let (disk, r) =
        (do create_dir_all; create_temporary; write_temporary content; replace_file) p.disk in
      elim r [
        | err e ↦ (record p { disk = disk }, err e)
        | ok _ ↦ (record { disk = disk; journal_records = length ms; dirty = false }, ok tt)
      ]

-- The metadata call comes only if the cache is clean.
unfoldable pub needs_rewrite : PersistentCache → PersistentCache × Result Error Bool
unfolding next_outcome
needs_rewrite p =
    if p.dirty
    then (p, ok true)
    else (let (disk, o) = next_outcome p.disk in
        let p' = record p { disk = disk } in
        elim o [
          | fails n ↦ (p', err io)
          | works ↦ elim disk.file [
            | none ↦ (p', ok true)
            | some bytes ↦ (p', ok (eqb (length bytes) 0))
          ]
        ])

unfoldable pub should_compact : PersistentCache → ℕ → Bool
should_compact p live_mappings =
    leb compact_stale_records (p.journal_records - live_mappings)
    && leb (saturating_mul live_mappings 2) p.journal_records

unfoldable pub mark_dirty : PersistentCache → PersistentCache
mark_dirty p = record p { dirty = true }
