-- ===== src/Sstable/Builder.antt =====
-- `SstableBuilder` (src/sstable.cpp). `file` is what the temporary file holds; its end is the
-- position that `lseek(fd, 0, SEEK_CUR)` gives. The answers of `write` are an argument. MurmurHash3
-- and the rounded product of the probe count are the parameters of the Bloom filter.
use kronos_engine.Prelude.{
  ℕ, ◌+◌, ◌%◌, ◌^◌, Bool, true, false, not, ◌&&◌, Option, none, some, Result, ok, err, List, [],
  ◌∷◌, ◌++◌, Bytes, length, ltb, str_le, if◌then◌else◌,
}
use kronos_engine.Types.{InternalEntry}
use kronos_engine.Io.{WriteReturn, FsyncReturn, Outcome, done, threw, stopped, fsync_loop}
use kronos_engine.Bloom
use kronos_engine.Bloom.{BloomFilter}
use kronos_engine.Bloom.Membership.{add_all}
use kronos_engine.Sstable.Format.{
  SstableError, SparseIndexEntry, magic, version, record_bytes, block_parts, bloom_block,
  index_block, footer_parts, keys_not_increasing, empty_table, empty_filter, write_failed,
  not_synced, not_closed, not_renamed, directory_not_synced, process_stopped,
}
use kronos_engine.Codec.{encode_to_le}
use kronos_engine.Sstable.Writing.{write_parts}

pub record SstableBuilder : Type 0 where
  pub target_block_size : ℕ
  pub current_block_record_count : ℕ
  pub current_block_first_key : Bytes
  pub current_block : Bytes
  pub sparse_index : List SparseIndexEntry
  pub bits_per_key : ℕ
  pub bloom_keys : List Bytes
  pub last_key : Option Bytes
  pub file : Bytes

-- The builder after a call, how the call ended, and the answers that are left for later calls.
pub record Progress : Type 0 where
  pub builder : SstableBuilder
  pub result : Result SstableError (Unit {0})
  pub later : List WriteReturn

unfoldable pub is_empty {ℓ} : {A : Type ℓ} → List A → Bool
is_empty [] = true
is_empty (x ∷ xs) = false

-- How a call that meets this outcome of `write` ends.
unfoldable pub written : Outcome → Result SstableError (Unit {0})
written done = ok tt
written threw = err write_failed
written stopped = err process_stopped

-- The constructor, once the temporary file is open, and `writeHeader`.
unfoldable pub create : ℕ → ℕ → List WriteReturn → Progress
unfolding written
create block_size bits_per_key returns =
    let w = write_parts (magic ∷ encode_to_le 4 version ∷ []) returns in
    record {
      builder = record {
        target_block_size = block_size;
        current_block_record_count = 0;
        current_block_first_key = [];
        current_block = [];
        sparse_index = [];
        bits_per_key = bits_per_key;
        bloom_keys = [];
        last_key = none;
        file = w.bytes;
      };
      result = written w.outcome;
      later = w.later;
    }

-- The end of `flushCurrentBlock`: the block is on disk, and the index points at it.
unfoldable pub start_block : SstableBuilder → Bytes → SstableBuilder
start_block b bytes = record b {
  file = b.file ++ bytes;
  sparse_index =
      b.sparse_index
      ++ record {
        first_key = b.current_block_first_key;
        block_offset = length b.file;
        block_size = (4 + length b.current_block + 4) % 2 ^ 32;
      }
        ∷ [];
  current_block = [];
  current_block_record_count = 0;
  current_block_first_key = [];
}

unfoldable pub flush_current_block : (Bytes → ℕ) → SstableBuilder → List WriteReturn → Progress
flush_current_block crc32 b returns =
    let w = write_parts (block_parts crc32 b.current_block_record_count b.current_block) returns in
    if is_empty b.current_block
    then record { builder = b; result = ok tt; later = returns }
    else elim w.outcome [
      | done ↦ record { builder = start_block b w.bytes; result = ok tt; later = w.later }
      | threw ↦ record {
        builder = record b { file = b.file ++ w.bytes };
        result = err write_failed;
        later = w.later;
      }
      | stopped ↦ record {
        builder = record b { file = b.file ++ w.bytes };
        result = err process_stopped;
        later = w.later;
      }
    ]

-- `current_block_.size() != 0 && 4 + |block| + |record| + 4 > target_blockSize_`
unfoldable pub is_full : SstableBuilder → Bytes → Bool
unfolding is_empty
is_full b bytes =
    not (is_empty b.current_block)
    && ltb b.target_block_size ((4 + length b.current_block + length bytes + 4) % 2 ^ 64)

-- The flush before the record, where it does not fit.
unfoldable pub make_room : (Bytes → ℕ) → SstableBuilder → Bytes → List WriteReturn → Progress
make_room crc32 b bytes returns =
    if is_full b bytes
    then flush_current_block crc32 b returns
    else record { builder = b; result = ok tt; later = returns }

-- The rest of `add`, with room in the block.
unfoldable pub append_record : SstableBuilder → Bytes → Bytes → SstableBuilder
unfolding is_empty
append_record b key bytes = record b {
  current_block_first_key = if is_empty b.current_block then key else b.current_block_first_key;
  current_block = b.current_block ++ bytes;
  current_block_record_count = b.current_block_record_count + 1;
  bloom_keys = b.bloom_keys ++ key ∷ [];
  last_key = some key;
}

-- `last_key_.has_value() && key <= *last_key_`
unfoldable pub is_refused : Option Bytes → Bytes → Bool
is_refused none key = false
is_refused (some previous) key = str_le key previous

unfoldable pub add_entry :
    (Bytes → ℕ) → SstableBuilder → Bytes × InternalEntry → List WriteReturn → Progress
add_entry crc32 b (key, e) returns =
    let bytes = record_bytes (key, e) in
    let room = make_room crc32 b bytes returns in
    if is_refused b.last_key key
    then record { builder = b; result = err keys_not_increasing; later = returns }
    else elim room.result [
      | err e ↦ room
      | ok u ↦ record {
        builder = append_record room.builder key bytes;
        result = ok tt;
        later = room.later;
      }
    ]

-- `add` for each entry of a list, as `flushMemtable` and the compactor call it.
unfoldable pub add_entries :
    (Bytes → ℕ) → SstableBuilder → List (Bytes × InternalEntry) → List WriteReturn → Progress
add_entries crc32 b [] returns = record { builder = b; result = ok tt; later = returns }
add_entries crc32 b (e ∷ es) returns =
    let p = add_entry crc32 b e returns in
    let others = add_entries crc32 p.builder es p.later in
    elim p.result [ ok u ↦ others | err thrown ↦ p ]

-- The calls of `finish` after the file is written, and the end of the process, which may come before
-- or after the rename.
pub data PublishReturn : Type 0 where
  close_fails stops_before rename_fails stops_after directory_fails published : PublishReturn

unfoldable pub publish :
    Bytes
    → Option Bytes
    → List FsyncReturn
    → PublishReturn
    → Option Bytes × Result SstableError (Unit {0})
publish file path syncs answer = elim (fsync_loop syncs) [
  | threw ↦ (path, err not_synced)
  | stopped ↦ (path, err process_stopped)
  | done ↦ elim answer [
    | close_fails ↦ (path, err not_closed)
    | stops_before ↦ (path, err process_stopped)
    | rename_fails ↦ (path, err not_renamed)
    | stops_after ↦ (some file, err process_stopped)
    | directory_fails ↦ (some file, err directory_not_synced)
    | published ↦ (some file, ok tt)
  ]
]

-- What `finish` writes behind the blocks: Bloom filter, sparse index and footer.
unfoldable pub tail_parts : (Bytes → ℕ) → SstableBuilder → BloomFilter → List Bytes
tail_parts crc32 b f =
    let bloom = bloom_block crc32 f in
    let index = index_block crc32 b.sparse_index in
    let bloom_offset = length b.file in
    let index_offset = bloom_offset + length bloom in
    bloom ∷ index ∷ footer_parts crc32 bloom_offset (length bloom) index_offset (length index)

-- `finish`, after the last block: what the path of the table holds, and how the call ends.
unfoldable pub finish_flushed :
    (Bytes → ℕ)
    → (Bytes → ℕ → ℕ)
    → (ℕ → ℕ)
    → SstableBuilder
    → Option Bytes
    → List WriteReturn
    → List FsyncReturn
    → PublishReturn
    → Option Bytes × Result SstableError (Unit {0})
finish_flushed crc32 murmur round_probes b path returns syncs answer =
    if is_empty b.bloom_keys
    then (path, err empty_table)
    else elim (Bloom.make round_probes b.bits_per_key (length b.bloom_keys)) [
      | none ↦ (path, err empty_filter)
      | some f ↦
          let w = write_parts (tail_parts crc32 b (add_all murmur b.bloom_keys f)) returns in
          elim w.outcome [
            | threw ↦ (path, err write_failed)
            | stopped ↦ (path, err process_stopped)
            | done ↦ publish (b.file ++ w.bytes) path syncs answer
          ]
    ]

unfoldable pub finish :
    (Bytes → ℕ)
    → (Bytes → ℕ → ℕ)
    → (ℕ → ℕ)
    → SstableBuilder
    → Option Bytes
    → List WriteReturn
    → List FsyncReturn
    → PublishReturn
    → Option Bytes × Result SstableError (Unit {0})
finish crc32 murmur round_probes b path returns syncs answer =
    let p = flush_current_block crc32 b returns in
    elim p.result [
      | err e ↦ (path, err e)
      | ok u ↦ finish_flushed crc32 murmur round_probes p.builder path p.later syncs answer
    ]
