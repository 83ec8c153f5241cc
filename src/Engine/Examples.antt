-- ===== src/Engine/Examples.antt =====
-- The theorems on the engine at small states.
use kronos_engine.Prelude.{
  ◌*◌, ◌^◌, ◌≤◌, ◌⊎◌, err, ℕ, ◌+◌, ◌<◌, ◌≡◌, refl, true, false, Option, none, some, ok, List, [],
  ◌∷◌, ◌++◌, Bytes, length, All, arith, str_eq, if◌then◌else◌, compare_bytes,
}
use kronos_engine.Types.{InternalEntry, SstableMetadata, put, delete, found, deleted}
use kronos_engine.Codec.{encode_to_le}
use kronos_engine.Io.{WriteReturn, wrote, synced, write_loop, fsync_loop}
use kronos_engine.OrderedMap.{Map, find, insert_or_assign}
use kronos_engine.Memtable
use kronos_engine.Memtable.{Memtable, mutable, immutable, write, write_mutable, store, answer}
use kronos_engine.Memtable.Versions.{newest}
use kronos_engine.Wal.Format.{RecoveredRecord, Fits, header, serialize, serialize_all, record_body}
use kronos_engine.Wal.Log.{put_record, remove_record, write_record, append_record, after_io}
use kronos_engine.Wal.Append.{IsTail-nil}
use kronos_engine.Bloom.{BloomFilter}
use kronos_engine.Bloom.Membership.{add_all, add_all-same_sizes, may_contain-add_all}
use kronos_engine.Sstable
use kronos_engine.Sstable.Format.{record_bytes}
use kronos_engine.Sstable.Index.{contents}
use kronos_engine.Sstable.Parts.{FilterFits}
use kronos_engine.Sstable.Tables.{IsTable, table_of, table_of-IsTable}
use kronos_engine.Engine.{
  memtable_bytes_from_config, invalid_memtable_size, Engine, Step, goes_on, sleeps, throws,
  rotation_required, prepare_for_write_locked, put_logged, remove_logged, put_value, remove_value,
}
use kronos_engine.Engine.Reading.{get_value, memory_entry}
use kronos_engine.Engine.Client.{put_value-get_value, remove_value-get_value}
use kronos_engine.Bloom.{make, zeros, add, add_loop, set_at, set_bit, delta_of}
use kronos_engine.Files.{insert_file, sort_metadata}
use kronos_engine.Manifest.{
  apply_edit, next_snapshot, remove_all, add_each, validate_metadata, contains, advance_checkpoint,
  validate_all, persist_snapshot, committed,
}
use kronos_engine.Wal.Log.{
  reclaim_through, recover, recover_loop, rewrite, rewrite_file, replace_file, write_both,
  installed,
}
use kronos_engine.Wal.Scan.{
  read_record, read_sequence, read_field, read_operation, require_payload, verify_checksum,
  verify_sequence,
}
use kronos_engine.Codec.{decode_from_le}
use kronos_engine.Sstable.Format.{
  block_parts, bloom_block, seal, index_block, index_entries, index_entry, footer_parts,
}
use kronos_engine.Sstable.Writing.{write_parts, write_all}
use kronos_engine.Sstable.Builder
use kronos_engine.Sstable.Builder.{
  create, written, add_entries, add_entry, make_room, is_full, is_empty, is_refused,
  flush_current_block, start_block, finish, finish_flushed, tail_parts, publish, published,
}
use kronos_engine.Sstable.Build.{build_table}
use kronos_engine.Sstable.Build.Finishing.{TableFits}
use kronos_engine.Engine.Flush.{
  FlushReturns, flush_memtable, flush_entries, commit_flush, release_slot, flush_edit,
  flushed_through, largest_key, bloom_bits_per_key,
}
use kronos_engine.Engine.Flushed.{IsReadable, Keeps, flush_memtable-Keeps}
use kronos_engine.Engine.Newest.Tables.{IsLive}
use kronos_engine.Engine.Newest.{InOrder, IsNewest, get_value-IsNewest}
use kronos_engine.Engine.Sizing.{memtable_bytes_from_config_bounds}
use kronos_engine.Engine.Restart.{validate_manifest_sstables, recover_engine}
use kronos_engine.Engine.Replayed.{writes_past, to_list, recover_engine-restores}

abbrev byte_sum : Bytes → ℕ
byte_sum [] = 0
byte_sum (b ∷ bs) = b + byte_sum bs

abbrev byte_hash : Bytes → ℕ → ℕ
byte_hash [] seed = seed
byte_hash (b ∷ bs) seed = b + byte_hash bs seed

-- No path has a file.
abbrev no_files : Bytes → Option Bytes
no_files path = none

abbrev target : ℕ
target = 1000

-- A new engine, with this checkpoint and this log.
abbrev engine : Option ℕ → Bytes → Engine
engine checkpoint file = record {
  memtable_target_bytes = target;
  wal = record { file = file; position = length file; next_sequence = 0; linked = true };
  active_memtable = some (Memtable.init target);
  immutable_memtable = none;
  manifest = record {
    memory = record { live_files = []; persisted_through = checkpoint };
    disk = record { live_files = []; persisted_through = checkpoint };
  };
  flush_queue = record { queue = []; shutting_down = false };
  background_error = none;
  shutting_down = false;
  sstable_readers = [];
  flush_count = 0;
}

abbrev start : Engine
start = engine none header

-- The engine after a step that returned.
abbrev state_of : Step → Engine
state_of (goes_on e) = e
state_of sleeps = start
state_of (throws x e) = e

abbrev all_at_once : List WriteReturn
all_at_once = wrote 1000 ∷ []

abbrev a : Bytes
a = 97 ∷ []

abbrev b : Bytes
b = 98 ∷ []

abbrev after_put : Step
after_put = put_value byte_sum start a b all_at_once (synced ∷ [])

put_returns : after_put ≡ goes_on (state_of after_put)
unfolding put_value prepare_for_write_locked rotation_required put_record write_record append_record
    after_io write_loop fsync_loop put_logged Memtable.put_entry write write_mutable store find
    Memtable.init Memtable.entry_count insert_or_assign serialize record_body encode_to_le
put_returns = refl

put_value-get_value_example : (get_value byte_sum byte_hash no_files (state_of after_put) a).1 ≡ (
    if str_eq a a
    then ok (record { value = b; status = found })
    else (get_value byte_sum byte_hash no_files start a).1)
put_value-get_value_example =
    put_value-get_value byte_sum byte_hash no_files start (state_of after_put) a b all_at_once
      (synced ∷ []) a put_returns

abbrev after_remove : Step
after_remove = remove_value byte_sum start a all_at_once (synced ∷ [])

remove_returns : after_remove ≡ goes_on (state_of after_remove)
unfolding remove_value prepare_for_write_locked rotation_required remove_record write_record
    append_record after_io write_loop fsync_loop remove_logged Memtable.remove_entry write
    write_mutable store find Memtable.init Memtable.entry_count insert_or_assign serialize
    record_body encode_to_le
remove_returns = refl

remove_value-get_value_example :
    (get_value byte_sum byte_hash no_files (state_of after_remove) a).1 ≡ (
      if str_eq a a
      then ok (record { value = []; status = deleted })
      else (get_value byte_sum byte_hash no_files start a).1)
remove_value-get_value_example =
    remove_value-get_value byte_sum byte_hash no_files start (state_of after_remove) a all_at_once
      (synced ∷ []) a remove_returns

-- PUT "a" ↦ "b" with number 7, which the checkpoint covers, and DELETE "a" with number 9.
abbrev old_write : RecoveredRecord
old_write = record { sequence = 7; operation = put; key = a; value = b }

abbrev new_write : RecoveredRecord
new_write = record { sequence = 9; operation = delete; key = a; value = [] }

abbrev records : List RecoveredRecord
records = old_write ∷ new_write ∷ []

abbrev stopped_engine : Engine
stopped_engine = engine (some 7) ((header ++ serialize_all byte_sum records) ++ [])

records-Fit : All Fits records
records-Fit = (
  record { key_fits = omega arith; value_fits = omega arith; sequence_fits = omega arith },
  (record { key_fits = omega arith; value_fits = omega arith; sequence_fits = omega arith }, tt),
)

nothing_live : validate_manifest_sstables byte_sum no_files [] ≡ ok tt
unfolding validate_manifest_sstables
nothing_live = refl

recover_engine-restores_example :
    (e : Engine) × (recover_engine byte_sum no_files stopped_engine ≡ ok e)
    × ((key : Bytes)
        → memory_entry e.active_memtable key ≡ newest key none (writes_past (some 7) records))
    × All (λ r. r.sequence < e.wal.next_sequence) records
    × All (λ c. c < e.wal.next_sequence) (to_list (some 7))
    × (e.manifest ≡ stopped_engine.manifest)
recover_engine-restores_example =
    recover_engine-restores byte_sum no_files stopped_engine records [] target refl records-Fit
      (tt, (omega arith, tt)) (IsTail-nil byte_sum) nothing_live refl (omega arith, tt)

-- A live table of one record.
abbrev one_block : List (Map InternalEntry)
one_block = ((a, record { value = b; sequence = 7; operation = put }) ∷ []) ∷ []

abbrev empty_filter : BloomFilter
empty_filter = record { bit_count = 10; bits = 0 ∷ 0 ∷ []; probe_count = 7 }

abbrev filter : BloomFilter
filter = add_all byte_hash (a ∷ []) empty_filter

filter-Fits : FilterFits filter
filter-Fits =
    let (p, q, r) = add_all-same_sizes byte_hash (a ∷ []) empty_filter in
    record {
      some_bits = omega arith;
      bits_fit = omega arith;
      some_probes = omega arith;
      probes_fit = omega arith;
      packed = omega arith;
    }

abbrev table_file : Bytes
table_file = table_of byte_sum byte_hash one_block filter

table_file-IsTable : IsTable byte_sum byte_hash table_file (contents one_block)
unfolding contents Sstable.Blocks.records record_bytes encode_to_le
table_file-IsTable =
    table_of-IsTable byte_sum byte_hash one_block filter (tt, tt)
      (record { key_fits = omega arith; value_fits = omega arith; sequence_fits = omega arith }, tt)
      (omega arith) filter-Fits (tt, tt)
      (may_contain-add_all byte_hash (a ∷ []) empty_filter
        (record { some_bits = omega arith; room = omega arith }))

abbrev live_file : SstableMetadata
live_file = record { path = 49 ∷ []; level = 0; smallest_key = a; largest_key = a }

abbrev live_engine : Engine
live_engine = record start {
  manifest = record {
    memory = record { live_files = live_file ∷ []; persisted_through = some 7 };
    disk = record { live_files = live_file ∷ []; persisted_through = some 7 };
  };
}

abbrev one_file : Bytes → Option Bytes
one_file path = some table_file

abbrev one_table : Bytes → Map InternalEntry
one_table path = contents one_block

live_file-IsLive : IsLive byte_sum byte_hash one_file one_table live_file
unfolding contents compare_bytes
live_file-IsLive = record {
  file = table_file;
  there = refl;
  is_table = table_file-IsTable;
  covers = (refl, tt);
}

live_engine-InOrder : InOrder one_table live_engine a
unfolding Memtable.init Memtable.lookup_entry find
live_engine-InOrder = record { active_newer = λ v w h. cc; immutable_newer = λ v w h. cc }

get_value-IsNewest_example :
    (o : Option InternalEntry) × IsNewest one_table live_engine a o
    × ((get_value byte_sum byte_hash one_file live_engine a).1 ≡ ok (answer o))
get_value-IsNewest_example =
    get_value-IsNewest byte_sum byte_hash one_file one_table live_engine a (live_file-IsLive, tt) tt
      live_engine-InOrder

-- A frozen memtable of one write in the slot, and the log that has it.
abbrev full : Memtable
full = record {
  mtable = (a, record { value = b; sequence = 7; operation = put }) ∷ [];
  memory_usage = 100;
  target_bytes = target;
  state = immutable;
}

abbrev flushing : Engine
flushing = record (engine none (header ++ serialize_all byte_sum (old_write ∷ []))) {
  immutable_memtable = some full;
}

abbrev path : Bytes
path = 49 ∷ []

abbrev seven_probes : ℕ → ℕ
seven_probes n = 7

abbrev no_table : Bytes → Map InternalEntry
no_table p = []

abbrev writes : List WriteReturn
writes =
    wrote 1000
    ∷ wrote 1000
    ∷ wrote 1000
    ∷ wrote 1000
    ∷ wrote 1000
    ∷ wrote 1000
    ∷ wrote 1000
    ∷ wrote 1000
    ∷ wrote 1000
    ∷ wrote 1000
    ∷ wrote 1000
    ∷ wrote 1000
    ∷ wrote 1000
    ∷ wrote 1000
    ∷ []

abbrev all_well : FlushReturns
all_well = record {
  writes = writes;
  syncs = synced ∷ [];
  published = published;
  committed = committed;
  wal_writes = writes;
  wal_syncs = synced ∷ [];
  wal_replaced = installed;
  wal_parent_synced = true;
}

flush_returns :
    (flush_memtable byte_sum byte_hash seven_probes flushing full path all_well true).result ≡ ok tt
unfolding flush_memtable flush_entries commit_flush release_slot flush_edit flushed_through
    largest_key build_table create written write_parts write_all encode_to_le add_entries add_entry
    make_room is_full is_empty is_refused Builder.append_record record_bytes block_parts
    flush_current_block start_block finish finish_flushed tail_parts bloom_block seal index_block
    index_entries index_entry footer_parts make zeros add_all add add_loop set_at set_bit delta_of
    publish fsync_loop apply_edit next_snapshot remove_all add_each validate_metadata contains
    advance_checkpoint validate_all persist_snapshot insert_file sort_metadata compare_bytes
    reclaim_through recover recover_loop read_record read_sequence read_field read_operation
    require_payload verify_checksum verify_sequence decode_from_le rewrite rewrite_file replace_file
    write_loop write_both after_io serialize serialize_all record_body
flush_returns = refl

full-Fits : TableFits seven_probes bloom_bits_per_key full.mtable
unfolding Sstable.Blocks.records record_bytes encode_to_le
full-Fits = record {
  all_fit = (
    record { key_fits = omega arith; value_fits = omega arith; sequence_fits = omega arith },
    tt,
  );
  records_fit = omega arith;
  bits_fit = omega arith;
  probes_fit = omega arith;
}

flushing-IsReadable : IsReadable byte_sum byte_hash no_files no_table flushing
unfolding Memtable.init Memtable.lookup_entry find
flushing-IsReadable = record {
  live = tt;
  cached = tt;
  in_order = λ key. record {
    active_newer = λ v w h. cc;
    immutable_newer = λ v w h (m, nothing, f). absurd nothing;
  };
}

flush_memtable-Keeps_example :
    Keeps byte_sum byte_hash no_files no_table flushing path full.mtable
      (flush_memtable byte_sum byte_hash seven_probes flushing full path all_well true)
flush_memtable-Keeps_example =
    flush_memtable-Keeps byte_sum byte_hash seven_probes no_files no_table flushing full path
      all_well true flush_returns refl refl full-Fits
      (record { ordered = tt; distinct = tt; sound = λ file nothing. absurd nothing })
      flushing-IsReadable

abbrev sixty_four : ℕ
sixty_four = 64

memtable_bytes_from_config_bounds_example :
    ((0 < sixty_four)
      × (sixty_four < 2 ^ 31)
      × (memtable_bytes_from_config 64 ≡ ok (sixty_four * 2 ^ 20)))
    ⊎ (((sixty_four ≡ 0) ⊎ (2 ^ 31 ≤ sixty_four))
        × (memtable_bytes_from_config 64 ≡ err invalid_memtable_size))
memtable_bytes_from_config_bounds_example = memtable_bytes_from_config_bounds 64 (omega arith)
