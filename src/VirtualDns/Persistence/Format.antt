-- ===== src/VirtualDns/Persistence/Format.antt =====
-- virtual_dns/persistence.rs: the lines that `rewrite` writes and `load` reads.
use tun2proxy.VirtualDns.Disk.{Bytes, works}
use tun2proxy.Prelude.{
  ◌≡◌, bytes_eq, refl, arith, List, ℕ, ◌≢◌, ◌++◌, ◌≤◌, ◌∷◌, map, [], ap, some, ◌∙◌, sym,
  append_assoc, append-nil, eqb, false, true, Option,
}
use mathlib.Core.Path.{ap₂}
use tun2proxy.Ip.{ip_beq_iff, ip_eq, IpAddr}
use tun2proxy.VirtualDns.Persistence.{
  Codec, lines, write_mappings, write_cache_record, scan_line, strip_cr, scan_lines, read_lines,
  Bytes, CacheRecord, Printable, Scan, mapping, header, cache_version, saturating_add, read_journal,
  PersistentCache, address_in_pool, loaded, read_header,
}

Printable-snoc : (line : Bytes) (b : ℕ) → Printable line → 32 ≤ b → Printable (line ++ b ∷ [])
Printable-snoc [] b p h = (h, tt)
Printable-snoc (c ∷ line) b p h = (p.0, Printable-snoc line b p.1 h)

strip_cr-Printable : (line : Bytes) → Printable line → strip_cr line ≡ line
unfolding strip_cr
strip_cr-Printable [] p = refl
strip_cr-Printable (b ∷ []) p = ground arith
strip_cr-Printable (b ∷ c ∷ line) p = ap (◌∷◌ b) (strip_cr-Printable (c ∷ line) p.1)

-- A printable line and its newline are read as that line.
lines_line :
    (line text rest : Bytes)
    → Printable line
    → Printable text
    → lines line (text ++ 10 ∷ rest) ≡ (line ++ text) ∷ lines [] rest
unfolding lines
lines_line line [] rest p q =
    ap (λ l. l ∷ lines [] rest) (strip_cr-Printable line p ∙ sym (append-nil line))
lines_line line (b ∷ text) rest p (h, q) =
    let other : eqb b 10 ≡ false = ground arith in
    rw (other, lines)
      (lines_line (line ++ b ∷ []) text rest (Printable-snoc line b p h) q
        ∙ ap (λ l. l ∷ lines [] rest) (append_assoc line (b ∷ []) text))

module _ (codec : Codec) where
  open codec use {to_writer, from_str, is_utf8}

  abbrev pub record_of : IpAddr × Bytes → CacheRecord
  record_of (ip, name) = mapping ip name

  -- The journal of a header and mappings.
  abbrev pub journal : IpAddr → IpAddr → IpAddr → List (IpAddr × Bytes) → Bytes
  journal network broadcast cursor ms =
      write_cache_record codec (header cache_version network broadcast cursor)
      ++ write_mappings codec ms

  lines_record :
      (r : CacheRecord) (rest : Bytes)
      → lines [] (write_cache_record codec r ++ rest) ≡ to_writer r ∷ lines [] rest
  unfolding write_cache_record
  lines_record r rest =
      ap (lines []) (append_assoc (to_writer r) (10 ∷ []) rest)
      ∙ lines_line [] (to_writer r) rest tt (codec.to_writer-Printable r)

  lines_mappings :
      (ms : List (IpAddr × Bytes))
      → lines [] (write_mappings codec ms) ≡ map (λ m. to_writer (record_of m)) ms
  unfolding write_mappings
  lines_mappings [] = unfold lines in refl
  lines_mappings ((ip, name) ∷ ms) =
      lines_record (mapping ip name) (write_mappings codec ms)
      ∙ ap (◌∷◌ (to_writer (mapping ip name))) (lines_mappings ms)

  read_lines_mappings :
      (ms : List (IpAddr × Bytes))
      → read_lines codec works (map (λ m. to_writer (record_of m)) ms)
        ≡ map (λ m. some (to_writer (record_of m))) ms
  unfolding read_lines
  read_lines_mappings [] = refl
  read_lines_mappings ((ip, name) ∷ ms) =
      rw (codec.to_writer-utf8 (mapping ip name), read_lines_mappings ms)

  scan_line_record :
      (ip : IpAddr) (name line : Bytes) (s : Scan)
      → line ≢ []
      → from_str line ≡ some (mapping ip name)
      → scan_line codec line s ≡ record s {
        records = saturating_add s.records 1;
        mappings = s.mappings ++ (ip, name) ∷ [];
      }
  unfolding scan_line
  scan_line_record ip name [] s h e = absurd (h refl)
  scan_line_record ip name (b ∷ line) s h e = rw (e, scan_line)

  scan_mappings :
      (ms : List (IpAddr × Bytes)) (s : Scan)
      → ((scan_lines codec (map (λ m. some (to_writer (record_of m))) ms) s).mappings
          ≡ s.mappings ++ ms)
        × ((scan_lines codec (map (λ m. some (to_writer (record_of m))) ms) s).repair_needed
            ≡ s.repair_needed)
  unfolding scan_lines
  scan_mappings [] s = (sym (append-nil s.mappings), refl)
  scan_mappings ((ip, name) ∷ ms) s =
      let m = mapping ip name in
      let s' = scan_line codec (to_writer m) s in
      let e =
        scan_line_record ip name (to_writer m) s (codec.to_writer-ne-nil m)
          (codec.from_str-to_writer m) in
      let (gathered, repair) = scan_mappings ms s' in
      (
        gathered
            ∙ ap (λ (t : Scan). t.mappings ++ ms) e
            ∙ append_assoc s.mappings ((ip, name) ∷ []) ms,
        repair ∙ ap (λ (t : Scan). t.repair_needed) e,
      )

  read_header-header :
      (network broadcast cursor : IpAddr) (ls : List (Option Bytes))
      → address_in_pool cursor network broadcast ≡ true
      → read_header codec network broadcast
          (some (to_writer (header cache_version network broadcast cursor)) ∷ ls)
        ≡ some cursor
  unfolding read_header
  read_header-header network broadcast cursor ls inside = rw (
    codec.from_str-to_writer (header cache_version network broadcast cursor),
    inside,
    (ip_beq_iff network network).1 refl,
    (ip_beq_iff broadcast broadcast).1 refl,
    read_header,
  )

  -- The lines of a journal, as the iterator gives them.
  read_lines-journal :
      (network broadcast cursor : IpAddr) (ms : List (IpAddr × Bytes))
      → read_lines codec works (lines [] (journal network broadcast cursor ms))
        ≡ some (to_writer (header cache_version network broadcast cursor))
          ∷ map (λ m. some (to_writer (record_of m))) ms
  unfolding read_lines
  read_lines-journal network broadcast cursor ms =
      let h = header cache_version network broadcast cursor in
      rw (
        lines_record h (write_mappings codec ms),
        lines_mappings ms,
        codec.to_writer-utf8 h,
        read_lines_mappings ms,
      )

  -- Reading a journal gives its cursor and its mappings, in order, with nothing to repair.
  pub read_journal-journal :
      (network broadcast cursor : IpAddr) (ms : List (IpAddr × Bytes)) (p : PersistentCache)
      → address_in_pool cursor network broadcast ≡ true
      → (read_journal codec network broadcast
          (read_lines codec works (lines [] (journal network broadcast cursor ms)))
          p).1
        ≡ loaded cursor ms false
  unfolding read_journal
  read_journal-journal network broadcast cursor ms p inside =
      let start : Scan = record { records = 0; mappings = []; repair_needed = false } in
      let (gathered, repair) = scan_mappings ms start in
      let ls = map (λ m. some (to_writer (record_of m))) ms in
      ap (λ x. (read_journal codec network broadcast x p).1)
        (read_lines-journal network broadcast cursor ms)
      ∙ rw (read_header-header network broadcast cursor ls inside, read_journal)
          (ap₂ (loaded cursor) gathered repair)
