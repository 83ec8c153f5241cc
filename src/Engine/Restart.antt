-- ===== src/Engine/Restart.antt =====
-- `KronosEngine::recover` and `validateManifestSstables` (src/engine.cpp).
use kronos_engine.Prelude.{
  ℕ, ◌+◌, ◌-◌, ◌^◌, Bool, false, Option, none, some, Result, ok, err, ◌>>=◌, ◌>>◌, List, [], ◌∷◌,
  Bytes, leb, ◌==◌, if◌then◌else◌,
}
use kronos_engine.Types.{SstableMetadata, put, delete}
use kronos_engine.Memtable
use kronos_engine.Memtable.{Memtable, MemTableState, mutable, WriteResult, success}
use kronos_engine.Wal.Format.{RecoveredRecord}
use kronos_engine.Wal.Scan.{WalError}
use kronos_engine.Wal.Log.{Wal, recover, ensure_next_sequence_at_least}
use kronos_engine.Engine.{
  Engine, EngineError, missing_sstable, of_wal, write_rejected, sequence_space_exhausted,
  non_increasing_sequence, no_active_memtable,
}
use kronos_engine.Engine.Reading.{open_path}

-- Every live file opens.
unfoldable pub validate_manifest_sstables :
    (Bytes → ℕ) → (Bytes → Option Bytes) → List SstableMetadata → Result EngineError (Unit {0})
validate_manifest_sstables crc32 files [] = ok tt
validate_manifest_sstables crc32 files (metadata ∷ live) =
    let others = validate_manifest_sstables crc32 files live in
    elim (files metadata.path) [
      | none ↦ err missing_sstable
      | some file ↦ elim (open_path crc32 files metadata.path) [ err e ↦ err e | ok r ↦ others ]
    ]

-- `checkpoint.has_value() && record.sequence <= *checkpoint`
abbrev pub is_covered : Option ℕ → ℕ → Bool
is_covered none n = false
is_covered (some c) n = leb n c

-- `previous_sequence.has_value() && record.sequence <= *previous_sequence`
unfoldable pub goes_back : Option ℕ → ℕ → Bool
goes_back none n = false
goes_back (some p) n = leb n p

-- The write of a record.
unfoldable pub replay_record : Memtable → RecoveredRecord → Memtable × WriteResult
replay_record t r = elim r.operation [
  | put ↦ Memtable.put_entry t r.key r.value r.sequence
  | delete ↦ Memtable.remove_entry t r.key r.sequence
]

-- The loop over the records of the log.
unfoldable pub replay :
    Option ℕ → Option ℕ → Memtable → List RecoveredRecord → Result EngineError Memtable
replay checkpoint previous t [] = ok t
replay checkpoint previous t (r ∷ rs) =
    let written = replay_record t r in
    let skipped = replay checkpoint (some r.sequence) t rs in
    let replayed = replay checkpoint (some r.sequence) written.0 rs in
    if goes_back previous r.sequence
    then err non_increasing_sequence
    else if r.sequence == 2 ^ 64 - 1
    then err sequence_space_exhausted
    else if is_covered checkpoint r.sequence
    then skipped
    else elim written.1 [ success ↦ replayed | _ ↦ err write_rejected ]

-- The next number past the checkpoint.
unfoldable pub raise_sequence : Option ℕ → Wal → Result EngineError Wal
raise_sequence none w = ok w
raise_sequence (some c) w =
    if c == 2 ^ 64 - 1
    then err sequence_space_exhausted
    else ok (ensure_next_sequence_at_least (c + 1) w)

abbrev pub of_log :
    Result WalError (List RecoveredRecord) → Result EngineError (List RecoveredRecord)
of_log (ok records) = ok records
of_log (err x) = err (of_wal x)

abbrev pub replay_into :
    Option ℕ → Option Memtable → List RecoveredRecord → Result EngineError Memtable
replay_into checkpoint none records = err no_active_memtable
replay_into checkpoint (some t) records = replay checkpoint none t records

-- `recover`, which throws or leaves the engine that opens.
unfoldable pub recover_engine :
    (Bytes → ℕ) → (Bytes → Option Bytes) → Engine → Result EngineError Engine
recover_engine crc32 files e = do
  validate_manifest_sstables crc32 files e.manifest.memory.live_files
  let checkpoint = e.manifest.memory.persisted_through
  let (wal, recovered) = recover crc32 e.wal
  records ← of_log recovered
  active ← replay_into checkpoint e.active_memtable records
  wal ← raise_sequence checkpoint wal
  ok (record e { wal = wal; active_memtable = some active })
