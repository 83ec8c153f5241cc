-- ===== src/Engine/Flush.antt =====
-- `KronosEngine::flushMemtable` (src/engine.cpp), for a path that `allocateSstablePath` found free.
-- `is_slot` says whether the memtable is the one in the immutable slot.
use kronos_engine.Prelude.{
  ℕ, ◌+◌, ◌%◌, ◌^◌, Bool, Option, none, some, Result, ok, err, List, [], ◌∷◌, Bytes, ltb,
  if◌then◌else◌,
}
use kronos_engine.Types.{InternalEntry, ManifestEdit}
use kronos_engine.Io.{WriteReturn, FsyncReturn}
use kronos_engine.OrderedMap.{Map}
use kronos_engine.Memtable.{Memtable, mutable, immutable}
use kronos_engine.Manifest.{CommitReturn, apply_edit}
use kronos_engine.Wal.Log.{Replacement, reclaim_through}
use kronos_engine.Wal.Scan.{WalError}
use kronos_engine.Sstable.Builder.{PublishReturn}
use kronos_engine.Sstable.Build.{build_table}
use kronos_engine.Engine.{
  Engine, EngineError, of_wal, of_sstable, of_manifest, mutable_memtable, empty_memtable,
  not_current_immutable,
}

-- What the operating system answers during a flush.
pub record FlushReturns : Type 0 where
  pub writes : List WriteReturn
  pub syncs : List FsyncReturn
  pub published : PublishReturn
  pub committed : CommitReturn
  pub wal_writes : List WriteReturn
  pub wal_syncs : List FsyncReturn
  pub wal_replaced : Replacement
  pub wal_parent_synced : Bool

-- The engine after the call, what the path of the table holds, and how the call ends.
pub record Flushed : Type 0 where
  pub engine : Engine
  pub holds : Option Bytes
  pub result : Result EngineError (Unit {0})

-- The loop over the iterator: the last key, and the largest number.
unfoldable pub largest_key : Bytes → Map InternalEntry → Bytes
largest_key key [] = key
largest_key key ((k, e) ∷ rest) = largest_key k rest

unfoldable pub flushed_through : ℕ → Map InternalEntry → ℕ
flushed_through n [] = n
flushed_through n ((k, e) ∷ rest) =
    flushed_through (if ltb n e.sequence then e.sequence else n) rest

unfoldable pub flush_edit : Bytes → Bytes × InternalEntry → Map InternalEntry → ManifestEdit
flush_edit path (key, e) rest = record {
  remove_files = [];
  add_files =
      record {
        path = path;
        level = 0;
        smallest_key = key;
        largest_key = largest_key key ((key, e) ∷ rest);
      }
      ∷ [];
  persisted_through = some (flushed_through e.sequence ((key, e) ∷ rest));
}

abbrev pub of_reclaim : Result WalError (Unit {0}) → Result EngineError (Unit {0})
of_reclaim (ok u) = ok tt
of_reclaim (err e) = err (of_wal e)

-- The slot is free again, and the log is reclaimed.
unfoldable pub release_slot :
    (Bytes → ℕ) → Engine → ℕ → FlushReturns → Option Bytes → Bool → Flushed
release_slot crc32 e through r holds is_slot =
    let counted = record e { flush_count = (e.flush_count + 1) % 2 ^ 64 } in
    let (wal, reclaimed) =
      reclaim_through crc32 e.wal through r.wal_writes r.wal_syncs r.wal_replaced
        r.wal_parent_synced in
    if is_slot
    then record {
      engine = record counted { immutable_memtable = none; wal = wal };
      holds = holds;
      result = of_reclaim reclaimed;
    }
    else record { engine = counted; holds = holds; result = err not_current_immutable }

-- From the finished table on: the edit of the manifest.
unfoldable pub commit_flush :
    (Bytes → ℕ) → Engine → ManifestEdit → ℕ → FlushReturns → Option Bytes → Bool → Flushed
commit_flush crc32 e edit through r holds is_slot =
    let (manifest, applied) = apply_edit edit e.manifest r.committed in
    let committed = record e { manifest = manifest } in
    elim applied [
      | err x ↦ record { engine = committed; holds = holds; result = err (of_manifest x) }
      | ok u ↦ release_slot crc32 committed through r holds is_slot
    ]

-- `sstable_block_size_` and `bloom_bits_per_key_`
abbrev pub sstable_block_size : ℕ
sstable_block_size = 4096

abbrev pub bloom_bits_per_key : ℕ
bloom_bits_per_key = 10

unfoldable pub flush_entries :
    (Bytes → ℕ)
    → (Bytes → ℕ → ℕ)
    → (ℕ → ℕ)
    → Engine
    → Map InternalEntry
    → Bytes
    → FlushReturns
    → Bool
    → Flushed
flush_entries crc32 murmur round_probes e [] path r is_slot = record {
  engine = e;
  holds = none;
  result = err empty_memtable;
}
flush_entries crc32 murmur round_probes e ((key, entry) ∷ rest) path r is_slot =
    let built =
      build_table crc32 murmur round_probes sstable_block_size bloom_bits_per_key
        ((key, entry) ∷ rest) none r.writes r.syncs r.published in
    elim built.1 [
      | err x ↦ record { engine = e; holds = built.0; result = err (of_sstable x) }
      | ok u ↦
          commit_flush crc32 e (flush_edit path (key, entry) rest)
            (flushed_through entry.sequence ((key, entry) ∷ rest)) r built.0 is_slot
    ]

unfoldable pub flush_memtable :
    (Bytes → ℕ)
    → (Bytes → ℕ → ℕ)
    → (ℕ → ℕ)
    → Engine
    → Memtable
    → Bytes
    → FlushReturns
    → Bool
    → Flushed
flush_memtable crc32 murmur round_probes e t path r is_slot = elim t.state [
  | mutable ↦ record { engine = e; holds = none; result = err mutable_memtable }
  | immutable ↦ flush_entries crc32 murmur round_probes e t.mtable path r is_slot
]
