-- ===== src/Sstable/Format.antt =====
-- The bytes of a table (src/sstable.cpp): header, data blocks, Bloom filter, sparse index, footer.
-- `crc32` is zlib's, a parameter: its value on a whole text, which is what a chain of calls gives.
use kronos_engine.Prelude.{ℕ, ◌%◌, ◌^◌, List, [], ◌∷◌, ◌++◌, Bytes, length, take}
use kronos_engine.Types.{InternalEntry}
use kronos_engine.Codec.{encode_to_le}
use kronos_engine.Wal.Format.{operation_byte, checksum}
use kronos_engine.Bloom.{BloomFilter}

-- The exceptions of tables, and the end of the process.
pub data SstableError : Type 0 where
  keys_not_increasing empty_table empty_filter : SstableError
  write_failed not_synced not_closed not_renamed directory_not_synced : SstableError
  process_stopped : SstableError
  read_failed invalid_magic unsupported_version : SstableError
  footer_mismatch invalid_filter_size filter_mismatch invalid_filter : SstableError
  invalid_index_size index_mismatch corrupted_index invalid_entry_count trailing_index :
      SstableError
  corrupted_block block_mismatch invalid_record_count invalid_operation trailing_block :
      SstableError
  invalid_block_size empty_block not_valid : SstableError

pub record SparseIndexEntry : Type 0 where
  pub first_key : Bytes
  pub block_offset : ℕ
  pub block_size : ℕ

abbrev pub magic : Bytes
magic = 75 ∷ 83 ∷ 83 ∷ 84 ∷ []

abbrev pub version : ℕ
version = 1

-- `[Magic][Version]`
unfoldable pub header : Bytes
header = magic ++ encode_to_le 4 version

-- The part of the data that `crc32(crc, data, static_cast<uInt>(size))` reads.
abbrev pub low : Bytes → Bytes
low bytes = take (length bytes % 2 ^ 32) bytes

-- `[sequence][operation][key_len][value_len][key][value]`, the lengths cut to 32 bits
unfoldable pub record_bytes : Bytes × InternalEntry → Bytes
record_bytes (key, e) =
    encode_to_le 8 e.sequence
    ++ ((operation_byte e.operation ∷ [])
        ++ (encode_to_le 4 (length key) ++ (encode_to_le 4 (length e.value) ++ (key ++ e.value))))

-- `[record_count][records][CRC32]`
unfoldable pub block_parts : (Bytes → ℕ) → ℕ → Bytes → List Bytes
block_parts crc32 record_count records =
    encode_to_le 4 record_count
    ∷ records
    ∷ encode_to_le 4 (checksum crc32 (encode_to_le 4 record_count ++ low records))
    ∷ []

-- A payload and its checksum.
unfoldable pub seal : (Bytes → ℕ) → Bytes → Bytes
seal crc32 payload = payload ++ encode_to_le 4 (checksum crc32 (low payload))

-- `[bit_count][probe_count][bits][CRC32]`
unfoldable pub bloom_block : (Bytes → ℕ) → BloomFilter → Bytes
bloom_block crc32 f =
    seal crc32 (encode_to_le 4 f.bit_count ++ (encode_to_le 4 f.probe_count ++ f.bits))

-- `[first_key_len][first_key][block_offset][block_size]`
unfoldable pub index_entry : SparseIndexEntry → Bytes
index_entry e =
    encode_to_le 4 (length e.first_key)
    ++ (e.first_key ++ (encode_to_le 8 e.block_offset ++ encode_to_le 4 e.block_size))

unfoldable pub index_entries : List SparseIndexEntry → Bytes
index_entries [] = []
index_entries (e ∷ es) = index_entry e ++ index_entries es

-- `[entry_count][entries][CRC32]`
unfoldable pub index_block : (Bytes → ℕ) → List SparseIndexEntry → Bytes
index_block crc32 es = seal crc32 (encode_to_le 4 (length es) ++ index_entries es)

-- `[bloom_offset][bloom_size][index_offset][index_size][CRC32]`
unfoldable pub footer_parts : (Bytes → ℕ) → ℕ → ℕ → ℕ → ℕ → List Bytes
footer_parts crc32 bloom_offset bloom_size index_offset index_size =
    let a = encode_to_le 8 bloom_offset in
    let b = encode_to_le 8 bloom_size in
    let c = encode_to_le 8 index_offset in
    let d = encode_to_le 8 index_size in
    a ∷ b ∷ c ∷ d ∷ encode_to_le 4 (checksum crc32 (a ++ (b ++ (c ++ d)))) ∷ []
