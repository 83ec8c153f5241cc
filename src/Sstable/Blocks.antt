-- ===== src/Sstable/Blocks.antt =====
-- Blocks of records: what the block parser and the scan of `lookupEntry` find in one.
use kronos_engine.Prelude.{
  ℕ, ◌+◌, ◌*◌, ◌/◌, ◌^◌, ◌<◌, ◌≤◌, ◌≡◌, refl, sym, ap, ◌∙◌, [], ◌∷◌, ◌++◌, Bytes, length, ok,
  length-append, append_assoc, some, All, arith, leb, compare_refl, eq_of_compare, gt_of_lt,
  lt_of_gt, true, append-nil,
}
use kronos_engine.Types.{InternalEntry, OperationType, put, delete}
use kronos_engine.Codec.{encode_to_le, decode_from_le, decode-encode, length-encode_to_le}
use kronos_engine.Wal.Format.{checksum}
use kronos_engine.OrderedMap.{Map, find, IsAscending}
use kronos_engine.OrderedMap.Laws.{find-Above, Above-trans}
use kronos_engine.Sstable.Format.{SstableError, low, record_bytes, block_parts}
use kronos_engine.Sstable.Writing.{concat}
use kronos_engine.Sstable.Reader.{unseal}
use kronos_engine.Sstable.Lookup.{found_entry, scan_records, search_block}
use kronos_engine.Sstable.Iterator.{open_block}
use kronos_engine.Sstable.Fields.{
  field-append, unseal-stored, low_small, Fits, stored, parse_record-record_bytes,
}

-- The records of a block, one behind the other.
unfoldable pub records : Map InternalEntry → Bytes
records [] = []
records (r ∷ rs) = record_bytes r ++ records rs

-- The bytes of a block that holds these records.
unfoldable pub block : (Bytes → ℕ) → Map InternalEntry → Bytes
block crc32 rs = concat (block_parts crc32 (length rs) (records rs))

pub records-append : (xs ys : Map InternalEntry) → records (xs ++ ys) ≡ records xs ++ records ys
unfolding records
records-append [] ys = refl
records-append (x ∷ xs) ys =
    ap (◌++◌ (record_bytes x)) (records-append xs ys) ∙ sym (append_assoc (record_bytes x) _ _)

pub length-record_bytes :
    (r : Bytes × InternalEntry) → length (record_bytes r) ≡ 17 + length r.0 + length r.1.value
unfolding record_bytes
length-record_bytes (key, e) = simp (length-append, length-encode_to_le) (omega arith)

-- Each record takes 17 bytes at least.
pub length-records : (rs : Map InternalEntry) → 17 * length rs ≤ length (records rs)
unfolding records
length-records [] = omega arith
length-records (r ∷ rs) =
    omega
      (arith, length-records rs, length-append (record_bytes r) (records rs), length-record_bytes r)

pub length-block :
    (crc32 : Bytes → ℕ) (rs : Map InternalEntry) → length (block crc32 rs) ≡ 8 + length (records rs)
unfolding block concat block_parts
length-block crc32 rs = simp (length-append, length-encode_to_le) (omega arith)

found_entry-stored : (r : Bytes × InternalEntry) → found_entry (stored r) ≡ ok (some r.1)
unfolding found_entry stored
found_entry-stored (key, e) = byte e e.operation refl
  where
    byte :
        (e : InternalEntry) (op : OperationType)
        → e.operation ≡ op
        → found_entry (stored (key, e)) ≡ ok (some e)
    byte e delete h = ground arith
    byte e put h = ground arith

-- The scan of ascending records that were written answers what the map of them holds.
pub scan_records-records :
    (key : Bytes) (rs : Map InternalEntry)
    → All Fits rs
    → IsAscending rs
    → scan_records key (length rs) (records rs) ≡ ok (find key rs)
unfolding scan_records records find stored
scan_records-records key [] f a = refl
scan_records-records key ((j, e) ∷ rs) f a =
    rw (parse_record-record_bytes (j, e) (records rs) f.0) (
      ground (
        arith,
        found_entry-stored (j, e),
        scan_records-records key rs f.1 a.1,
        find-Above key rs,
        Above-trans key j rs,
        gt_of_lt j key,
        eq_of_compare j key,
        lt_of_gt j key,
        compare_refl key,
      ))

-- A block of records, small enough for its fields.
pub record BlockFits (rs : Map InternalEntry) : Type 0 where
  pub all_fit : All Fits rs
  pub some_records : 0 < length rs
  pub size_fits : 8 + length (records rs) < 2 ^ 32

-- The bytes of a block are its sealed payload.
block-payload :
    (crc32 : Bytes → ℕ) (rs : Map InternalEntry)
    → BlockFits rs
    → (block crc32 rs
        ≡ (encode_to_le 4 (length rs) ++ records rs)
          ++ encode_to_le 4 (checksum crc32 (low (encode_to_le 4 (length rs) ++ records rs))))
unfolding block concat block_parts
block-payload crc32 rs f =
    let count = encode_to_le 4 (length rs) in
    let inner : low (records rs) ≡ records rs =
      low_small (records rs) (omega (arith, f.size_fits)) in
    let outer : low (count ++ records rs) ≡ count ++ records rs = low_small (count ++ records rs) (
      omega (
        arith,
        f.size_fits,
        length-append count (records rs),
        length-encode_to_le 4 (length rs),
      )) in
    rw (inner, outer) (simp (append_assoc, append-nil))

module _ (crc32 : Bytes → ℕ) (rs : Map InternalEntry) (f : BlockFits rs) where
  pub unseal-block :
      (e : SstableError)
      → unseal crc32 e (block crc32 rs) ≡ ok (encode_to_le 4 (length rs) ++ records rs)
  unseal-block e =
      ap (unseal crc32 e) (block-payload crc32 rs f)
      ∙ unseal-stored crc32 e (encode_to_le 4 (length rs) ++ records rs)

  decode_count : decode_from_le (encode_to_le 4 (length rs)) ≡ length rs
  decode_count = decode-encode 4 (length rs) (omega (arith, f.size_fits, length-records rs))

  -- The search of a block answers what the map of its records holds.
  pub search_block-block :
      (key : Bytes) → IsAscending rs → search_block crc32 key (block crc32 rs) ≡ ok (find key rs)
  unfolding search_block
  search_block-block key a =
      let long : leb 4 (length (block crc32 rs)) ≡ true = ground (arith, length-block crc32 rs) in
      let room : leb (length rs) (length (records rs) / 17) ≡ true =
        ground (arith, length-records rs) in
      rw
        (
          long,
          unseal-block _,
          field-append _ 4 (encode_to_le 4 (length rs)) (records rs) (length-encode_to_le 4 _),
          decode_count,
          room,
        )
        (scan_records-records key rs f.all_fit a)

  -- The iterator opens the block at its records.
  pub open_block-block : open_block crc32 (block crc32 rs) ≡ ok (length rs, records rs)
  unfolding open_block
  open_block-block =
      rw
        (
          unseal-block _,
          field-append _ 4 (encode_to_le 4 (length rs)) (records rs) (length-encode_to_le 4 _),
          decode_count,
        )
        (ground (arith, f.some_records))
