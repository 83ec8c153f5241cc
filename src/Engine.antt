-- ===== src/Engine.antt =====
-- src/engine.cpp and include/kronos/engine.hpp: the state that the mutexes protect, and what the
-- foreground operations and the worker do between two points where a mutex is taken. What the
-- operating system answers is an argument, and `files` says what each path holds.
pub mod Memory
pub mod Client
pub mod Reading
pub mod Restart
pub mod Flush
pub mod Flushed
pub mod Sizing
pub mod Replayed
pub mod Newest
mod Examples
use kronos_engine.Prelude.{
  ℕ, ◌+◌, ◌-◌, ◌*◌, ◌/◌, ◌%◌, ◌^◌, Bool, true, false, not, ◌&&◌, ◌||◌, Option, none, some, Result,
  ok, err, List, [], ◌∷◌, ◌++◌, Bytes, ltb, leb, ◌==◌, if◌then◌else◌,
}
use kronos_engine.Types.{InternalEntry, OperationType, put, delete}
use kronos_engine.Memtable
use kronos_engine.Memtable.{
  Memtable, WriteResult, success, entry_count, would_exceed_target, freeze,
}
use kronos_engine.Queue
use kronos_engine.Queue.{ThreadSafeQueue}
use kronos_engine.Manifest.{Manifest, ManifestError}
use kronos_engine.Wal.Log.{Wal, put_record, remove_record}
use kronos_engine.Wal.Scan.{WalError}
use kronos_engine.Io.{WriteReturn, FsyncReturn}
use kronos_engine.Sstable.Format.{SstableError}
use kronos_engine.Sstable.Reader.{SstableReader}

-- The exceptions of the engine.
pub data EngineError : Type 0 where
  engine_shutting_down no_active_memtable slot_occupied not_frozen queue_rejected : EngineError
  write_rejected open_failed sequence_space_exhausted non_increasing_sequence : EngineError
  invalid_memtable_size memtable_size_overflow : EngineError
  missing_sstable mutable_memtable empty_memtable not_current_immutable : EngineError
  of_wal : WalError → EngineError
  of_sstable : SstableError → EngineError
  of_manifest : ManifestError → EngineError

pub record Engine : Type 0 where
  pub memtable_target_bytes : ℕ
  pub wal : Wal
  pub active_memtable : Option Memtable
  pub immutable_memtable : Option Memtable
  pub manifest : Manifest
  pub flush_queue : ThreadSafeQueue Memtable
  pub background_error : Option EngineError
  pub shutting_down : Bool
  pub sstable_readers : List (Bytes × SstableReader)
  pub flush_count : ℕ

-- `memtableBytesFromConfig`, on the word of the 32-bit `int`.
pub memtable_bytes_from_config : ℕ → Result EngineError ℕ
memtable_bytes_from_config configured_mb =
    if configured_mb == 0 || leb (2 ^ 31) configured_mb
    then err invalid_memtable_size
    else if ltb ((2 ^ 64 - 1) / 2 ^ 20) configured_mb
    then err memtable_size_overflow
    else ok (configured_mb * 2 ^ 20 % 2 ^ 64)

abbrev pub is_some {ℓ} : {A : Type ℓ} → Option A → Bool
is_some none = false
is_some (some a) = true

-- How a part of an operation that holds a mutex ends. `sleeps` is the wait on
-- `immutable_cleared_cv_`: once it wakes, the thread runs the same checks again.
pub data Step : Type 0 where
  goes_on : Engine → Step
  sleeps : Step
  throws : EngineError → Engine → Step

-- `rotateActiveMemtableLocked`, with an active memtable and a free slot.
unfoldable pub rotate_memtable : Engine → Memtable → Step
rotate_memtable e active =
    let frozen = freeze active in
    let pushed = Queue.push frozen.0 e.flush_queue in
    let rotated = record e {
      immutable_memtable = some frozen.0;
      active_memtable = some (Memtable.init e.memtable_target_bytes);
      flush_queue = pushed.0;
    } in
    if entry_count active == 0
    then goes_on e
    else if not frozen.1
    then throws not_frozen e
    else if pushed.1
    then goes_on rotated
    else throws queue_rejected rotated

unfoldable pub rotate_active_memtable_locked : Engine → Step
rotate_active_memtable_locked e = elim e.active_memtable [
  | none ↦ throws no_active_memtable e
  | some active ↦
      if is_some e.immutable_memtable then throws slot_occupied e else rotate_memtable e active
]

-- `active_memtable_->entry_count() > 0 && active_memtable_->would_exceed_target(key, candidate)`;
-- without an active memtable the C++ is undefined.
unfoldable pub rotation_required : Engine → Bytes → InternalEntry → Bool
rotation_required e key candidate = elim e.active_memtable [
  | none ↦ false
  | some active ↦ not (entry_count active == 0) && would_exceed_target active key candidate
]

unfoldable pub prepare_for_write_locked : Engine → Bytes → InternalEntry → Step
prepare_for_write_locked e key candidate =
    if e.shutting_down then throws engine_shutting_down e else elim e.background_error [
      | some error ↦ throws error e
      | none ↦
          if rotation_required e key candidate
          then (if is_some e.immutable_memtable then sleeps else rotate_active_memtable_locked e)
          else goes_on e
    ]

-- The end of `put` and `remove`: the memtable took the write, or not.
abbrev pub settle_write : Engine → Memtable × WriteResult → Step
settle_write e r = elim r.1 [
  | WriteResult.success ↦ goes_on (record e { active_memtable = some r.0 })
  | _ ↦ throws write_rejected (record e { active_memtable = some r.0 })
]

-- From the log on.
unfoldable pub put_logged : Engine → Bytes → Bytes → ℕ → Step
put_logged e key value sequence = elim e.active_memtable [
  | none ↦ throws no_active_memtable e
  | some active ↦ settle_write e (Memtable.put_entry active key value sequence)
]

unfoldable pub remove_logged : Engine → Bytes → ℕ → Step
remove_logged e key sequence = elim e.active_memtable [
  | none ↦ throws no_active_memtable e
  | some active ↦ settle_write e (Memtable.remove_entry active key sequence)
]

abbrev pub candidate_of : Bytes → OperationType → InternalEntry
candidate_of value operation = record {
  value = value;
  sequence = 2 ^ 64 - 1;
  operation = operation;
}

unfoldable pub put_value :
    (Bytes → ℕ) → Engine → Bytes → Bytes → List WriteReturn → List FsyncReturn → Step
put_value crc32 e key value writes syncs =
    elim (prepare_for_write_locked e key (candidate_of value put)) [
      | sleeps ↦ sleeps
      | throws error e' ↦ throws error e'
      | goes_on e' ↦
          let (wal, logged) = put_record crc32 e'.wal key value writes syncs in
          elim logged [
            | err error ↦ throws (of_wal error) (record e' { wal = wal })
            | ok sequence ↦ put_logged (record e' { wal = wal }) key value sequence
          ]
    ]

unfoldable pub remove_value :
    (Bytes → ℕ) → Engine → Bytes → List WriteReturn → List FsyncReturn → Step
remove_value crc32 e key writes syncs =
    elim (prepare_for_write_locked e key (candidate_of [] delete)) [
      | sleeps ↦ sleeps
      | throws error e' ↦ throws error e'
      | goes_on e' ↦
          let (wal, logged) = remove_record crc32 e'.wal key writes syncs in
          elim logged [
            | err error ↦ throws (of_wal error) (record e' { wal = wal })
            | ok sequence ↦ remove_logged (record e' { wal = wal }) key sequence
          ]
    ]
