-- ===== src/Sstable/Scanning.antt =====
-- The iterator passes every record of every block that the index points at, in order.
use kronos_engine.Prelude.{
  ℕ, zero, suc, ◌+◌, ◌-◌, ◌<◌, ◌≡◌, refl, List, [], ◌∷◌, ◌++◌, Bytes, length, map, length-append,
  Option, none, some, Result, ok, ◌>>=◌, All, arith, leb, true,
}
use kronos_engine.Types.{InternalEntry}
use kronos_engine.OrderedMap.{Map}
use kronos_engine.Sstable.Format.{SstableError, SparseIndexEntry}
use kronos_engine.Sstable.Lookup.{StoredRecord}
use kronos_engine.Sstable.Iterator.{
  Iterator, parse_current_record, load_block, next_block, next, valid, is_some,
}
use kronos_engine.Sstable.Fields.{Fits, stored, parse_record-record_bytes}
use kronos_engine.Sstable.Blocks.{records, open_block-block, length-block}
use kronos_engine.Sstable.Index.{Points, PointsAll, contents}

abbrev before : StoredRecord → Option (List StoredRecord) → Option (List StoredRecord)
before r none = none
before r (some rs) = some (r ∷ rs)

-- `while (it.valid()) { ...; it.next(); }` on fuel: the records that it passes, in order, or none
-- where the fuel runs out.
unfoldable pub collect :
    (Bytes → ℕ) → Bytes → ℕ → Iterator → Result SstableError (Option (List StoredRecord))
collect crc32 file zero i = ok none
collect crc32 file (suc fuel) i = elim i.current [
  | none ↦ ok (some [])
  | some r ↦ do i ← next crc32 file i; others ← collect crc32 file fuel i; ok (before r others)
]

-- At the record `r`, with these records behind it in its block.
abbrev at_record : List SparseIndexEntry → Bytes × InternalEntry → Map InternalEntry → Iterator
at_record es r rs = record {
  later_blocks = es;
  unread = records rs;
  later_records = length rs;
  current = some (stored r);
}

module _ (crc32 : Bytes → ℕ) (file : Bytes) where
  parse_current_record-records :
      (es : List SparseIndexEntry) (r : Bytes × InternalEntry) (rs : Map InternalEntry)
      → Fits r
      → parse_current_record es (length rs) (records (r ∷ rs)) ≡ ok (at_record es r rs)
  unfolding parse_current_record records
  parse_current_record-records es r rs f = rw (parse_record-record_bytes r (records rs) f) refl

  load_block-Points :
      (e : SparseIndexEntry) (es : List SparseIndexEntry) (r : Bytes × InternalEntry)
      (rs : Map InternalEntry)
      → Points crc32 file e (r ∷ rs)
      → load_block crc32 file e es ≡ ok (at_record es r rs)
  unfolding load_block
  load_block-Points e es r rs p =
      let long : leb 8 e.block_size ≡ true = ground (arith, p.size, length-block crc32 (r ∷ rs)) in
      let less : suc (length rs) - 1 ≡ length rs = omega arith in
      rw (long, p.placed, open_block-block crc32 (r ∷ rs) p.fits, less)
        (parse_current_record-records es r rs p.fits.all_fit.0)

  -- From a record on, the iterator passes it, the rest of its block and the later blocks.
  collect-at_record :
      (fuel : ℕ) (es : List SparseIndexEntry) (bs : List (Map InternalEntry))
      (r : Bytes × InternalEntry) (rs : Map InternalEntry)
      → PointsAll crc32 file es bs
      → All Fits rs
      → length rs + length (contents bs) < fuel
      → collect crc32 file (suc fuel) (at_record es r rs)
        ≡ ok (some (stored r ∷ map stored (rs ++ contents bs)))
  unfolding collect next valid is_some next_block contents
  collect-at_record zero es bs r rs p f h = absurd (omega arith)
  collect-at_record (suc n) es bs r (s ∷ rs) p f h =
      rw
        (
          parse_current_record-records es s rs f.0,
          collect-at_record n es bs s rs p f.1 (omega arith),
        )
        refl
  collect-at_record (suc n) [] [] r [] p f h = refl
  collect-at_record (suc n) [] (b ∷ bs) r [] p f h = absurd p
  collect-at_record (suc n) (e ∷ es) [] r [] p f h = absurd p
  collect-at_record (suc n) (e ∷ es) ([] ∷ bs) r [] p f h = absurd p.0.starts
  collect-at_record (suc n) (e ∷ es) ((s ∷ rs) ∷ bs) r [] p f h =
      let size : length (contents ((s ∷ rs) ∷ bs)) ≡ suc (length rs + length (contents bs)) =
        omega (arith, length-append rs (contents bs)) in
      rw
        (
          load_block-Points e es s rs p.0,
          collect-at_record n es bs s rs p.1 p.0.fits.all_fit.1 (omega (arith, size)),
        )
        refl

  -- From the start it passes all records of the table.
  pub collect-contents :
      (es : List SparseIndexEntry) (bs : List (Map InternalEntry))
      → PointsAll crc32 file es bs
      → (next_block crc32 file es >>= collect crc32 file (suc (length (contents bs))))
        ≡ ok (some (map stored (contents bs)))
  unfolding next_block contents collect
  collect-contents [] [] p = refl
  collect-contents [] (b ∷ bs) p = absurd p
  collect-contents (e ∷ es) [] p = absurd p
  collect-contents (e ∷ es) ([] ∷ bs) p = absurd p.0.starts
  collect-contents (e ∷ es) ((r ∷ rs) ∷ bs) p = rw (load_block-Points e es r rs p.0) (
      collect-at_record (suc (length (rs ++ contents bs))) es bs r rs p.1 p.0.fits.all_fit.1
        (omega (arith, length-append rs (contents bs))))
