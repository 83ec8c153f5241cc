-- ===== src/Sstable/Iterator.antt =====
-- `SstableReader::Iterator` (src/sstable.cpp). The operation of the entry stays the byte that is
-- cast to `OperationType`, which the source does not check. The block is its unread payload.
use kronos_engine.Prelude.{
  ℕ, zero, suc, ◌-◌, Bool, true, false, Option, none, some, Result, ok, err, ◌>>=◌, ◌>>◌, guard,
  List, [], ◌∷◌, Bytes, leb, ◌==◌, not, if◌then◌else◌,
}
use kronos_engine.Codec.{decode_from_le}
use kronos_engine.Sstable.Format.{
  SstableError, SparseIndexEntry, invalid_block_size, block_mismatch, corrupted_block, empty_block,
  not_valid,
}
use kronos_engine.Sstable.Reader.{SstableReader, read_at, field, unseal}
use kronos_engine.Sstable.Lookup.{StoredRecord, parse_record}

-- `later_blocks` are the entries of the index past `current_block_index_`, `unread` the payload from
-- the cursor on, `later_records` how many records are left after the current one. The current record
-- is none where the iterator is not valid.
pub record Iterator : Type 0 where
  pub later_blocks : List SparseIndexEntry
  pub unread : Bytes
  pub later_records : ℕ
  pub current : Option StoredRecord

-- `parseCurrentRecord`, with this many records after it.
unfoldable pub parse_current_record :
    List SparseIndexEntry → ℕ → Bytes → Result SstableError Iterator
parse_current_record blocks later_records unread = do
  (r, rest) ← parse_record unread
  ok (record {
    later_blocks = blocks;
    unread = rest;
    later_records = later_records;
    current = some r;
  })

-- The count of a block that has been read, and what follows it.
unfoldable pub open_block : (Bytes → ℕ) → Bytes → Result SstableError (ℕ × Bytes)
open_block crc32 bytes = do
  payload ← unseal crc32 block_mismatch bytes
  (count, rest) ← field corrupted_block 4 payload
  guard (not (decode_from_le count == 0)) empty_block
  ok (decode_from_le count, rest)

-- `loadBlock`, and `parseCurrentRecord` after it, as its callers do.
unfoldable pub load_block :
    (Bytes → ℕ) → Bytes → SparseIndexEntry → List SparseIndexEntry → Result SstableError Iterator
load_block crc32 file e blocks = do
  guard (leb 8 e.block_size) invalid_block_size
  bytes ← read_at e.block_offset e.block_size file
  (count, rest) ← open_block crc32 bytes
  parse_current_record blocks (count - 1) rest

abbrev ended : Iterator
ended = record { later_blocks = []; unread = []; later_records = 0; current = none }

-- To the first record of the next block, or to the end.
unfoldable pub next_block :
    (Bytes → ℕ) → Bytes → List SparseIndexEntry → Result SstableError Iterator
next_block crc32 file [] = ok ended
next_block crc32 file (e ∷ es) = load_block crc32 file e es

-- `getIterator`
unfoldable pub get_iterator : (Bytes → ℕ) → SstableReader → Result SstableError Iterator
get_iterator crc32 reader = next_block crc32 reader.file reader.sparse_index

unfoldable pub is_some {ℓ} : {A : Type ℓ} → Option A → Bool
is_some none = false
is_some (some a) = true

unfoldable pub valid : Iterator → Bool
unfolding is_some
valid i = is_some i.current

-- `getKey` and `getEntry`
unfoldable pub get_record : Iterator → Result SstableError StoredRecord
get_record i = elim i.current [ none ↦ err not_valid | some r ↦ ok r ]

unfoldable pub next : (Bytes → ℕ) → Bytes → Iterator → Result SstableError Iterator
unfolding valid
next crc32 file i =
    if valid i
    then elim i.later_records [
      | zero ↦ next_block crc32 file i.later_blocks
      | suc n ↦ parse_current_record i.later_blocks n i.unread
    ]
    else ok i
