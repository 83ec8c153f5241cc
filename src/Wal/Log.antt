-- ===== src/Wal/Log.antt =====
-- The operations of `kronos::Wal` (src/wal.cpp). `file` is the content of the open file and `position`
-- the offset of its descriptor. What `write` and `fsync` return is an argument of each operation.
-- `lseek`, `fstat`, `ftruncate` and `read` succeed, and so does the `fsync` after a truncation.
-- `linked` says that the path of the log still names the open file.
use kronos_engine.Prelude.{
  ℕ, zero, suc, ◌+◌, ◌-◌, ◌^◌, Bool, true, false, ◌||◌, ◌&&◌, Option, none, some, Result, ok, err,
  List, [], ◌∷◌, ◌++◌, Bytes, length, take, drop, ltb, leb, ◌==◌, str_eq, if◌then◌else◌,
}
use kronos_engine.Types.{OperationType, delete, put}
use kronos_engine.Io.{
  WriteReturn, FsyncReturn, Outcome, done, threw, stopped, Written, write_loop, fsync_loop,
}
use kronos_engine.Wal.Format.{RecoveredRecord, magic, version, header, serialize}
use kronos_engine.Wal.Scan.{
  WalError, value, clean, torn, bad, read_record, invalid_header, too_large, sequence_exhausted,
  write_failed, fsync_failed, process_stopped, out_of_fuel,
}

pub record Wal : Type 0 where
  pub file : Bytes
  pub position : ℕ
  pub next_sequence : ℕ
  pub linked : Bool

-- Two or more buffers written one after the other.
unfoldable pub write_both : Bytes → Bytes → List WriteReturn → Written
write_both first second returns =
    let one = write_loop first returns in
    elim one.outcome [
      | done ↦
          let two = write_loop second one.later in record two { bytes = one.bytes ++ two.bytes }
      | threw ↦ one
      | stopped ↦ one
    ]

-- The state after an operation that ends like this.
unfoldable pub after_io : Outcome → WalError → Result WalError (Unit {0})
after_io done e = ok tt
after_io threw e = err e
after_io stopped e = err process_stopped

-- `Wal(path)` where the path has no file: the header is written and synced, then the directory, which
-- succeeds or not. The result is what the path holds then, and the log if the constructor returns.
unfoldable pub create : List WriteReturn → List FsyncReturn → Bool → Bytes × Result WalError Wal
create writes syncs parent_synced =
    let out = write_both magic (version ∷ []) writes in
    (
      out.bytes,
      elim (after_io out.outcome write_failed) [
        | err e ↦ err e
        | ok _ ↦ elim (after_io (fsync_loop syncs) fsync_failed) [
          | err e ↦ err e
          | ok _ ↦
              if parent_synced
              then ok (record {
                file = out.bytes;
                position = length out.bytes;
                next_sequence = 0;
                linked = true;
              })
              else err fsync_failed
        ]
      ],
    )

-- `Wal(path)` where the path has a file: the header is read and compared.
unfoldable pub open_existing : Bytes → Result WalError Wal
open_existing file =
    if str_eq (take 4 file) magic && str_eq (take 1 (drop 4 file)) (version ∷ [])
    then ok (record { file = file; position = length file; next_sequence = 0; linked = true })
    else err invalid_header

unfoldable pub ensure_next_sequence_at_least : ℕ → Wal → Wal
ensure_next_sequence_at_least minimum w =
    if ltb w.next_sequence minimum then record w { next_sequence = minimum } else w

-- What a file holds after bytes were written at an offset.
abbrev pub overwrite : Bytes → ℕ → Bytes → Bytes
overwrite file at bytes = take at file ++ (bytes ++ drop (at + length bytes) file)

-- From the serialized record on: the write, the sync, and the next sequence number.
unfoldable pub append_record :
    Wal → Bytes → List WriteReturn → List FsyncReturn → Wal × Result WalError ℕ
append_record w bytes writes syncs =
    let out = write_loop bytes writes in
    let w' = record w {
      file = overwrite w.file w.position out.bytes;
      position = w.position + length out.bytes;
    } in
    elim (after_io out.outcome write_failed) [
      | err e ↦ (w', err e)
      | ok _ ↦ elim (after_io (fsync_loop syncs) fsync_failed) [
        | err e ↦ (w', err e)
        | ok _ ↦ (record w' { next_sequence = w.next_sequence + 1 }, ok w.next_sequence)
      ]
    ]

unfoldable pub write_record :
    (Bytes → ℕ)
    → Wal
    → OperationType
    → Bytes
    → Bytes
    → List WriteReturn
    → List FsyncReturn
    → Wal × Result WalError ℕ
write_record crc32 w operation key val writes syncs =
    if w.next_sequence == 2 ^ 64 - 1
    then (w, err sequence_exhausted)
    else if ltb (2 ^ 32 - 1) (length key) || ltb (2 ^ 32 - 1) (length val)
    then (w, err too_large)
    else append_record w
        (serialize crc32
          (record { sequence = w.next_sequence; operation = operation; key = key; value = val }))
        writes syncs

-- `put(key, value)` and `remove(key)`
unfoldable pub put_record :
    (Bytes → ℕ)
    → Wal
    → Bytes
    → Bytes
    → List WriteReturn
    → List FsyncReturn
    → Wal × Result WalError ℕ
put_record crc32 w key val writes syncs = write_record crc32 w put key val writes syncs

unfoldable pub remove_record :
    (Bytes → ℕ) → Wal → Bytes → List WriteReturn → List FsyncReturn → Wal × Result WalError ℕ
remove_record crc32 w key writes syncs = write_record crc32 w delete key [] writes syncs

-- How the loop of `recover` ends: the records, the next sequence number and the incomplete tail; or
-- an exception, with the bytes that were not yet read.
pub data Scanned : Type 0 where
  finished : List RecoveredRecord → ℕ → Bytes → Scanned
  failed : WalError → ℕ → Bytes → Scanned

abbrev pub prepend : RecoveredRecord → Scanned → Scanned
prepend r (finished rs next tail) = finished (r ∷ rs) next tail
prepend r (failed e next unread) = failed e next unread

-- `while (true)` of `recover`, on the unread bytes. A record takes bytes, so one more round than
-- there are bytes is enough.
unfoldable pub recover_loop : (Bytes → ℕ) → ℕ → Option ℕ → ℕ → Bytes → Scanned
recover_loop crc32 zero previous next rest = failed out_of_fuel next rest
recover_loop crc32 (suc fuel) previous next rest = elim (read_record crc32 previous rest) [
  | value (r, left) ↦ prepend r (recover_loop crc32 fuel (some r.sequence) (r.sequence + 1) left)
  | clean ↦ finished [] next []
  | torn ↦ finished [] next rest
  | bad e unread ↦ failed e next unread
]

-- The truncation of the tail, and the seek to the end.
abbrev pub settle : Wal → Scanned → Wal × Result WalError (List RecoveredRecord)
settle w (finished rs next tail) =
    let kept = take (length w.file - length tail) w.file in
    (record w { file = kept; position = length kept; next_sequence = next }, ok rs)
settle w (failed e next unread) =
    (record w { position = length w.file - length unread; next_sequence = next }, err e)

unfoldable pub recover : (Bytes → ℕ) → Wal → Wal × Result WalError (List RecoveredRecord)
recover crc32 w =
    settle w
      (recover_loop crc32 (suc (length w.file)) none w.next_sequence (drop (length header) w.file))

-- What the loop of `reclaimThrough` writes into the temporary file.
pub record Rewritten : Type 0 where
  pub bytes : Bytes
  pub thrown : Option WalError

abbrev pub then_write : Bytes → Rewritten → Rewritten
then_write front r = record r { bytes = front ++ r.bytes }

unfoldable pub rewrite : (Bytes → ℕ) → ℕ → List RecoveredRecord → List WriteReturn → Rewritten
rewrite crc32 checkpoint [] returns = record { bytes = []; thrown = none }
rewrite crc32 checkpoint (r ∷ rs) returns =
    let out = write_loop (serialize crc32 r) returns in
    let skip = rewrite crc32 checkpoint rs returns in
    let more = rewrite crc32 checkpoint rs out.later in
    if leb r.sequence checkpoint
    then skip
    else if ltb (2 ^ 32 - 1) (length r.key) || ltb (2 ^ 32 - 1) (length r.value)
    then record { bytes = []; thrown = some too_large }
    else elim out.outcome [
      | done ↦ then_write out.bytes more
      | threw ↦ record { bytes = out.bytes; thrown = some write_failed }
      | stopped ↦ record { bytes = out.bytes; thrown = some process_stopped }
    ]

unfoldable pub rewrite_file : (Bytes → ℕ) → ℕ → List RecoveredRecord → List WriteReturn → Rewritten
rewrite_file crc32 checkpoint rs returns =
    let out = write_both magic (version ∷ []) returns in
    elim out.outcome [
      | done ↦ then_write out.bytes (rewrite crc32 checkpoint rs out.later)
      | threw ↦ record { bytes = out.bytes; thrown = some write_failed }
      | stopped ↦ record { bytes = out.bytes; thrown = some process_stopped }
    ]

-- What becomes of the temporary file: `close` or `rename` fails; it takes the log's place; or it
-- takes the log's place and cannot be opened again.
pub data Replacement : Type 0 where
  refused installed detached : Replacement

-- From the `fsync` of the temporary file on. Where it cannot be opened, the descriptor stays on the
-- old file, which has no name any more.
unfoldable pub replace_file :
    Wal → Rewritten → List FsyncReturn → Replacement → Bool → Wal × Result WalError (Unit {0})
replace_file w temporary syncs replacement parent_synced = elim temporary.thrown [
  | some e ↦ (w, err e)
  | none ↦ elim (after_io (fsync_loop syncs) fsync_failed) [
    | err e ↦ (w, err e)
    | ok _ ↦ elim replacement [
      | refused ↦ (w, err write_failed)
      | installed ↦ (
        record w { file = temporary.bytes; position = length temporary.bytes; linked = true },
        if parent_synced then ok tt else err fsync_failed,
      )
      | detached ↦ (record w { linked = false }, err write_failed)
    ]
  ]
]

-- After the recovery the next number is raised again to what it was before.
unfoldable pub reclaim_through :
    (Bytes → ℕ)
    → Wal
    → ℕ
    → List WriteReturn
    → List FsyncReturn
    → Replacement
    → Bool
    → Wal × Result WalError (Unit {0})
reclaim_through crc32 w checkpoint writes syncs replacement parent_synced =
    let (w', recovered) = recover crc32 w in
    elim recovered [
      | err e ↦ (w', err e)
      | ok rs ↦
          replace_file (ensure_next_sequence_at_least w.next_sequence w')
            (rewrite_file crc32 checkpoint rs writes) syncs replacement parent_synced
    ]
