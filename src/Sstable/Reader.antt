-- ===== src/Sstable/Reader.antt =====
-- `SstableReader` (src/sstable.cpp): opening a table. A read of a range of the file gives those bytes,
-- or throws where the file is too short. The cursor into bytes in memory is the list of those left.
use kronos_engine.Prelude.{
  ℕ, zero, suc, ◌+◌, ◌-◌, ◌/◌, not, ◌||◌, Bool, true, false, Option, none, some, Result, ok, err,
  ◌>>=◌, ◌>>◌, guard, List, [], ◌∷◌, Bytes, length, take, drop, leb, ◌==◌, str_eq, if◌then◌else◌,
}
use kronos_engine.Codec.{decode_from_le}
use kronos_engine.Wal.Format.{checksum}
use kronos_engine.Bloom
use kronos_engine.Bloom.{BloomFilter}
use kronos_engine.Sstable.Format.{
  SstableError, SparseIndexEntry, magic, version, low, read_failed, invalid_magic,
  unsupported_version, footer_mismatch, invalid_filter_size, filter_mismatch, invalid_filter,
  invalid_index_size, index_mismatch, corrupted_index, invalid_entry_count, trailing_index,
}

pub record FooterInfo : Type 0 where
  pub bloom_offset : ℕ
  pub bloom_size : ℕ
  pub index_offset : ℕ
  pub index_size : ℕ

pub record SstableReader : Type 0 where
  pub file : Bytes
  pub bloom_filter : Option BloomFilter
  pub sparse_index : List SparseIndexEntry

-- `lseek` and `read_exact`, or `pread_exact`.
unfoldable pub read_at : ℕ → ℕ → Bytes → Result SstableError Bytes
read_at offset size file =
    if size == 0 || leb (offset + size) (length file)
    then ok (take size (drop offset file))
    else err read_failed

-- `require_bytes(n)`, and the cursor moves over them.
unfoldable pub field : SstableError → ℕ → Bytes → Result SstableError (Bytes × Bytes)
field e n bytes = if leb n (length bytes) then ok (take n bytes, drop n bytes) else err e

-- The payload before the checksum in the last four bytes, which must be its own.
unfoldable pub unseal : (Bytes → ℕ) → SstableError → Bytes → Result SstableError Bytes
unseal crc32 e bytes =
    let payload_size = length bytes - 4 in
    let payload = take payload_size bytes in
    if checksum crc32 (low payload) == decode_from_le (drop payload_size bytes)
    then ok payload
    else err e

unfoldable pub read_header : Bytes → Result SstableError (Unit {0})
read_header file = do
  magic_bytes ← read_at 0 4 file
  guard (str_eq magic_bytes magic) invalid_magic
  version_bytes ← read_at 4 4 file
  guard (decode_from_le version_bytes == version) unsupported_version

-- The last 36 bytes. `lseek` refuses where the file has fewer.
unfoldable pub read_footer : (Bytes → ℕ) → Bytes → Result SstableError FooterInfo
read_footer crc32 file = do
  bytes ← read_at (length file - 36) 36 file
  guard (decode_from_le (drop 32 bytes) == checksum crc32 (take 32 bytes)) footer_mismatch
  ok (record {
    bloom_offset = decode_from_le (take 8 bytes);
    bloom_size = decode_from_le (take 8 (drop 8 bytes));
    index_offset = decode_from_le (take 8 (drop 16 bytes));
    index_size = decode_from_le (take 8 (drop 24 bytes));
  })

abbrev pub is_empty {ℓ} : {A : Type ℓ} → List A → Bool
is_empty [] = true
is_empty (x ∷ xs) = false

-- The metadata of a stored filter is checked, and the filter is restored.
unfoldable pub restore_filter : ℕ → ℕ → Bytes → Result SstableError BloomFilter
restore_filter bit_count probe_count bits = do
  guard (not (bit_count == 0 || (probe_count == 0 || is_empty bits))) invalid_filter
  guard (length bits == (bit_count + 7) / 8) invalid_filter
  elim (Bloom.restore bit_count probe_count bits) [ none ↦ err invalid_filter | some f ↦ ok f ]

unfoldable pub load_bloom_filter : (Bytes → ℕ) → ℕ → ℕ → Bytes → Result SstableError BloomFilter
load_bloom_filter crc32 bloom_offset bloom_size file = do
  guard (leb 12 bloom_size) invalid_filter_size
  bytes ← read_at bloom_offset bloom_size file
  payload ← unseal crc32 filter_mismatch bytes
  restore_filter (decode_from_le (take 4 payload)) (decode_from_le (take 4 (drop 4 payload)))
      (drop 8 payload)

unfoldable pub parse_index_entry : Bytes → Result SstableError (SparseIndexEntry × Bytes)
parse_index_entry rest = do
  (key_length, rest) ← field corrupted_index 4 rest
  (key, rest) ← field corrupted_index (decode_from_le key_length) rest
  (offset, rest) ← field corrupted_index 8 rest
  (size, rest) ← field corrupted_index 4 rest
  ok (
    record {
      first_key = key;
      block_offset = decode_from_le offset;
      block_size = decode_from_le size;
    },
    rest,
  )

unfoldable pub parse_index_entries : ℕ → Bytes → Result SstableError (List SparseIndexEntry)
parse_index_entries zero rest = if is_empty rest then ok [] else err trailing_index
parse_index_entries (suc n) rest = do
  (e, rest) ← parse_index_entry rest
  es ← parse_index_entries n rest
  ok (e ∷ es)

unfoldable pub parse_index : Bytes → Result SstableError (List SparseIndexEntry)
parse_index payload = do
  (count, rest) ← field corrupted_index 4 payload
  guard (leb (decode_from_le count) (length rest / 16)) invalid_entry_count
  parse_index_entries (decode_from_le count) rest

unfoldable pub load_sparse_index :
    (Bytes → ℕ) → ℕ → ℕ → Bytes → Result SstableError (List SparseIndexEntry)
load_sparse_index crc32 index_offset index_size file = do
  guard (leb 8 index_size) invalid_index_size
  bytes ← read_at index_offset index_size file
  payload ← unseal crc32 index_mismatch bytes
  parse_index payload

-- The constructor, once the file is open.
unfoldable pub open_table : (Bytes → ℕ) → Bytes → Result SstableError SstableReader
open_table crc32 file = do
  read_header file
  footer ← read_footer crc32 file
  filter ← load_bloom_filter crc32 footer.bloom_offset footer.bloom_size file
  index ← load_sparse_index crc32 footer.index_offset footer.index_size file
  ok (record { file = file; bloom_filter = some filter; sparse_index = index })
