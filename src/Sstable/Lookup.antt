-- ===== src/Sstable/Lookup.antt =====
-- `SstableReader::lookupEntry` and `get` (src/sstable.cpp).
use kronos_engine.Prelude.{
  ℕ, zero, suc, ◌/◌, Option, none, some, Result, ok, err, ◌>>=◌, ◌>>◌, guard, List, [], ◌∷◌, Bytes,
  Bool, false, not, length, leb, str_eq, str_lt, str_le, if◌then◌else◌,
}
use kronos_engine.Types.{InternalEntry, GetResult}
use kronos_engine.Codec.{decode_from_le}
use kronos_engine.Wal.Format.{decode_operation}
use kronos_engine.Bloom.{BloomFilter, may_contain}
use kronos_engine.Memtable.{answer}
use kronos_engine.Sstable.Format.{
  SstableError, SparseIndexEntry, corrupted_block, block_mismatch, invalid_record_count,
  invalid_operation, trailing_block,
}
use kronos_engine.Sstable.Reader.{SstableReader, read_at, field, unseal, is_empty}

-- A record as it stands in a block.
pub record StoredRecord : Type 0 where
  pub sequence : ℕ
  pub operation_byte : ℕ
  pub key : Bytes
  pub value : Bytes

-- The fields of one record, in the loop of `lookupEntry` and in `parseCurrentRecord`.
unfoldable pub parse_record : Bytes → Result SstableError (StoredRecord × Bytes)
parse_record rest = do
  (sequence, rest) ← field corrupted_block 8 rest
  (operation, rest) ← field corrupted_block 1 rest
  (key_length, rest) ← field corrupted_block 4 rest
  (value_length, rest) ← field corrupted_block 4 rest
  (key, rest) ← field corrupted_block (decode_from_le key_length) rest
  (value, rest) ← field corrupted_block (decode_from_le value_length) rest
  ok (
    record {
      sequence = decode_from_le sequence;
      operation_byte = decode_from_le operation;
      key = key;
      value = value;
    },
    rest,
  )

-- The entry of the record that was found.
unfoldable pub found_entry : StoredRecord → Result SstableError (Option InternalEntry)
found_entry r = elim (decode_operation r.operation_byte) [
  | none ↦ err invalid_operation
  | some op ↦ ok (some (record { value = r.value; sequence = r.sequence; operation = op }))
]

-- The loop over the records, with this many to go.
unfoldable pub scan_records : Bytes → ℕ → Bytes → Result SstableError (Option InternalEntry)
scan_records key zero rest = if is_empty rest then ok none else err trailing_block
scan_records key (suc n) rest = do
  (r, rest) ← parse_record rest
  let others = scan_records key n rest
  if str_eq r.key key then found_entry r else if str_lt key r.key then ok none else others

-- What is done with the bytes of the block.
unfoldable pub search_block :
    (Bytes → ℕ) → Bytes → Bytes → Result SstableError (Option InternalEntry)
search_block crc32 key bytes = do
  guard (leb 4 (length bytes)) corrupted_block
  payload ← unseal crc32 block_mismatch bytes
  (count, rest) ← field corrupted_block 4 payload
  guard (leb (decode_from_le count) (length rest / 17)) invalid_record_count
  scan_records key (decode_from_le count) rest

-- The loop for `target_id`: on past the entries whose first key is not past the key.
unfoldable pub target_block : Bytes → SparseIndexEntry → List SparseIndexEntry → SparseIndexEntry
target_block key current [] = current
target_block key current (e ∷ es) =
    let onward = target_block key e es in if str_le e.first_key key then onward else current

unfoldable pub search_index :
    (Bytes → ℕ) → Bytes → Bytes → List SparseIndexEntry → Result SstableError (Option InternalEntry)
search_index crc32 file key [] = ok none
search_index crc32 file key (e ∷ es) =
    let target = target_block key e es in
    if str_lt key e.first_key
    then ok none
    else do bytes ← read_at target.block_offset target.block_size file; search_block crc32 key bytes

-- `bloom_filter_.has_value() && !bloom_filter_->mayContain(key)`
unfoldable pub is_excluded : (Bytes → ℕ → ℕ) → Bytes → Option BloomFilter → Bool
is_excluded murmur key none = false
is_excluded murmur key (some f) = not (may_contain murmur key f)

unfoldable pub lookup_entry :
    (Bytes → ℕ)
    → (Bytes → ℕ → ℕ)
    → SstableReader
    → Bytes
    → Result SstableError (Option InternalEntry)
lookup_entry crc32 murmur reader key =
    if is_excluded murmur key reader.bloom_filter
    then ok none
    else search_index crc32 reader.file key reader.sparse_index

unfoldable pub get :
    (Bytes → ℕ) → (Bytes → ℕ → ℕ) → SstableReader → Bytes → Result SstableError GetResult
get crc32 murmur reader key = do entry ← lookup_entry crc32 murmur reader key; ok (answer entry)
