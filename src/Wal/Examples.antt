-- ===== src/Wal/Examples.antt =====
-- The log's theorems at concrete files: a checksum that adds the bytes stands for zlib's.
use kronos_engine.Prelude.{
  ℕ, ◌+◌, ◌≡◌, ◌≢◌, ◌⊎◌, ◌↔◌, inr, refl, none, some, ok, err, List, [], ◌∷◌, ◌++◌, Bytes, All,
  length, true, subst, append-nil, ◌∙◌, arith,
}
use kronos_engine.Types.{delete, put}
use kronos_engine.Io.{
  WriteReturn, FsyncReturn, done, wrote, synced, write_loop, fsync_loop, write_loop-front,
}
use kronos_engine.Codec.{IsByte, encode_to_le}
use kronos_engine.Wal.Format.{
  RecoveredRecord, header, serialize, serialize_all, record_body, Fits, Follows,
}
use kronos_engine.Wal.Scan.{
  value, torn, fsync_failed, invalid_header, non_increasing, out_of_fuel, read_record,
}
use kronos_engine.Wal.Record.{read_record-serialize}
use kronos_engine.Wal.Torn.{read_record-torn}
use kronos_engine.Wal.Sound.{read_record_sound}
use kronos_engine.Wal.Log.{
  Wal, create, open_existing, write_record, append_record, after_io, installed, recover,
  reclaim_through,
}
use kronos_engine.Wal.Replay.{recover-log, next_after, IsTail}
use kronos_engine.Wal.Append.{IsLog, asked, write_record-atomic}
use kronos_engine.Wal.Exact.{recover-exact, RecoveredTo}
use kronos_engine.Wal.Reclaim.{Reclaimed, reclaim_through-IsLog}
use kronos_engine.Wal.Opening.{fresh, create-open_existing}
use kronos_engine.Wal.Repeated.{write_record-reuses_sequence}

abbrev byte_sum : Bytes → ℕ
byte_sum [] = 0
byte_sum (b ∷ bs) = b + byte_sum bs

-- PUT "a" ↦ "b" with number 7, and DELETE "a" with number 9.
abbrev first : RecoveredRecord
first = record { sequence = 7; operation = put; key = 97 ∷ []; value = 98 ∷ [] }

abbrev second : RecoveredRecord
second = record { sequence = 9; operation = delete; key = 97 ∷ []; value = [] }

abbrev first_bytes : Bytes
first_bytes =
    7 ∷ 0 ∷ 0 ∷ 0 ∷ 0 ∷ 0 ∷ 0 ∷ 0 ∷ 1 ∷ 1 ∷ 0 ∷ 0 ∷ 0 ∷ 1 ∷ 0 ∷ 0 ∷ 0 ∷ 97 ∷ 98 ∷ 205 ∷ 0 ∷ 0 ∷ 0
    ∷ []

first-bytes : serialize byte_sum first ≡ first_bytes
unfolding serialize record_body encode_to_le
first-bytes = refl

first-Fits : Fits first
first-Fits = record {
  key_fits = omega arith;
  value_fits = omega arith;
  sequence_fits = omega arith;
}

second-Fits : Fits second
second-Fits = record {
  key_fits = omega arith;
  value_fits = omega arith;
  sequence_fits = omega arith;
}

first-IsByte : All IsByte first_bytes
first-IsByte = ground arith

-- The log of both records, at its end.
abbrev log : Wal
log = record {
  file = header ++ serialize_all byte_sum (first ∷ second ∷ []);
  position = length (header ++ serialize_all byte_sum (first ∷ second ∷ []));
  next_sequence = 10;
  linked = true;
}

log-IsLog : IsLog byte_sum log (first ∷ second ∷ [])
log-IsLog = record {
  content = refl;
  at_end = refl;
  ascending = (tt, (omega arith, tt));
  fitting = (first-Fits, (second-Fits, tt));
  next_fits = omega arith;
  below = (omega arith, (omega arith, tt));
}

first_front-IsTail : IsTail byte_sum (7 ∷ 0 ∷ 0 ∷ [])
first_front-IsTail previous = inr (
    read_record-torn byte_sum previous first 7 0 (0 ∷ 0 ∷ [])
      (0 ∷ 0 ∷ 0 ∷ 0 ∷ 1 ∷ 1 ∷ 0 ∷ 0 ∷ 0 ∷ 1 ∷ 0 ∷ 0 ∷ 0 ∷ 97 ∷ 98 ∷ 205 ∷ 0 ∷ 0 ∷ 0 ∷ [])
      first-Fits first-bytes)

abbrev torn_log : Wal
torn_log = record {
  file = header ++ (first_bytes ++ 7 ∷ 0 ∷ 0 ∷ []);
  position = 0;
  next_sequence = 0;
  linked = true;
}

recover-log_example :
    recover byte_sum (record log {
      file = (header ++ serialize_all byte_sum (first ∷ second ∷ [])) ++ 7 ∷ 0 ∷ 0 ∷ [];
    })
    ≡ (
      record log {
        file = header ++ serialize_all byte_sum (first ∷ second ∷ []);
        position = length (header ++ serialize_all byte_sum (first ∷ second ∷ []));
        next_sequence = next_after 10 (first ∷ second ∷ []);
      },
      ok (first ∷ second ∷ []),
    )
recover-log_example =
    recover-log byte_sum
      (record log {
        file = (header ++ serialize_all byte_sum (first ∷ second ∷ [])) ++ 7 ∷ 0 ∷ 0 ∷ [];
      })
      (first ∷ second ∷ []) (7 ∷ 0 ∷ 0 ∷ []) refl (first-Fits, (second-Fits, tt))
      (tt, (omega arith, tt)) first_front-IsTail

recover-exact_example :
    ((recover byte_sum torn_log).1 ≢ err out_of_fuel)
    × ((rs : List RecoveredRecord)
        → (recover byte_sum torn_log).1 ≡ ok rs
        → RecoveredTo byte_sum torn_log (recover byte_sum torn_log).0 rs)
recover-exact_example =
    recover-exact byte_sum torn_log (first_bytes ++ 7 ∷ 0 ∷ 0 ∷ []) refl (ground arith)

write_record-atomic_example :
    let (w', result) =
      write_record byte_sum log put
        (98 ∷ [])
        (99 ∷ [])
        (wrote 4 ∷ WriteReturn.interrupted ∷ wrote 99 ∷ [])
        (synced ∷ []) in
    ((recover byte_sum w').1 ≡ ok (first ∷ second ∷ [])
      ⊎ (recover byte_sum w').1
        ≡ ok ((first ∷ second ∷ []) ++ asked log put (98 ∷ []) (99 ∷ []) ∷ []))
    × ((n : ℕ)
        → result ≡ ok n
        → (n ≡ log.next_sequence)
          × IsLog byte_sum w' ((first ∷ second ∷ []) ++ asked log put (98 ∷ []) (99 ∷ []) ∷ []))
write_record-atomic_example =
    write_record-atomic byte_sum log (first ∷ second ∷ []) put (98 ∷ []) (99 ∷ [])
      (wrote 4 ∷ WriteReturn.interrupted ∷ wrote 99 ∷ []) (synced ∷ []) log-IsLog

reclaim_through-IsLog_example :
    Reclaimed byte_sum log
      (first ∷ second ∷ [])
      7
      (reclaim_through byte_sum log 7
        (wrote 99 ∷ wrote 99 ∷ wrote 99 ∷ [])
        (synced ∷ [])
        installed
        true)
      installed
reclaim_through-IsLog_example =
    reclaim_through-IsLog byte_sum log (first ∷ second ∷ []) 7 (wrote 99 ∷ wrote 99 ∷ wrote 99 ∷ [])
      (synced ∷ []) installed true log-IsLog

read_record-serialize_example :
    read_record byte_sum (some 3) (serialize byte_sum first ++ 1 ∷ []) ≡ value (first, 1 ∷ [])
read_record-serialize_example =
    read_record-serialize byte_sum first first-Fits (some 3) (1 ∷ []) (omega arith)

read_record-torn_example : read_record byte_sum none (7 ∷ 0 ∷ 0 ∷ []) ≡ torn
read_record-torn_example =
    read_record-torn byte_sum none first 7 0 (0 ∷ 0 ∷ [])
      (0 ∷ 0 ∷ 0 ∷ 0 ∷ 1 ∷ 1 ∷ 0 ∷ 0 ∷ 0 ∷ 1 ∷ 0 ∷ 0 ∷ 0 ∷ 97 ∷ 98 ∷ 205 ∷ 0 ∷ 0 ∷ 0 ∷ [])
      first-Fits first-bytes

reads_first : read_record byte_sum none first_bytes ≡ value (first, [])
reads_first =
    subst (λ x. read_record byte_sum none x ≡ value (first, [])) (append-nil _ ∙ first-bytes)
      (read_record-serialize byte_sum first first-Fits none [] tt)

read_record_sound_example :
    (first_bytes ≡ serialize byte_sum first ++ []) × Fits first × Follows none 7
read_record_sound_example =
    read_record_sound byte_sum none first_bytes first [] first-IsByte reads_first

fails_to_sync :
    (write_record byte_sum log put (98 ∷ []) (99 ∷ []) (wrote 99 ∷ []) (FsyncReturn.error ∷ [])).1
    ≡ err fsync_failed
unfolding write_record append_record write_loop fsync_loop after_io serialize record_body
    encode_to_le serialize_all
fails_to_sync = refl

syncs :
    (write_record byte_sum
      (write_record byte_sum log put (98 ∷ []) (99 ∷ []) (wrote 99 ∷ []) (FsyncReturn.error ∷ [])).0
      put
      (98 ∷ [])
      (99 ∷ [])
      (wrote 99 ∷ [])
      (synced ∷ [])).1
    ≡ ok 10
unfolding write_record append_record write_loop fsync_loop after_io serialize record_body
    encode_to_le serialize_all
syncs = refl

write_record-reuses_sequence_example :
    let (w₁, failed_result) =
      write_record byte_sum log put (98 ∷ []) (99 ∷ []) (wrote 99 ∷ []) (FsyncReturn.error ∷ []) in
    let (w₂, result) =
      write_record byte_sum w₁ put (98 ∷ []) (99 ∷ []) (wrote 99 ∷ []) (synced ∷ []) in
    (10 ≡ log.next_sequence) × ((recover byte_sum w₂).1 ≡ err non_increasing)
write_record-reuses_sequence_example =
    write_record-reuses_sequence byte_sum log (first ∷ second ∷ []) put put (98 ∷ []) (99 ∷ [])
      (98 ∷ []) (99 ∷ []) (wrote 99 ∷ []) (wrote 99 ∷ []) (FsyncReturn.error ∷ []) (synced ∷ []) 10
      log-IsLog fails_to_sync syncs

create-open_existing_example :
    let (file, result) = create (wrote 3 ∷ WriteReturn.error ∷ []) (synced ∷ []) true in
    ((w : Wal) → result ≡ ok w → (w ≡ fresh) × (open_existing file ≡ ok w))
    × ((rest : Bytes) × (header ≡ file ++ rest)
        × (rest ≢ [] → open_existing file ≡ err invalid_header))
create-open_existing_example =
    create-open_existing (wrote 3 ∷ WriteReturn.error ∷ []) (synced ∷ []) true

write_loop-front_example :
    (rest : Bytes) × (first_bytes
      ≡ (write_loop first_bytes (wrote 3 ∷ WriteReturn.error ∷ [])).bytes ++ rest)
    × (((write_loop first_bytes (wrote 3 ∷ WriteReturn.error ∷ [])).outcome ≡ done) ↔ (rest ≡ []))
write_loop-front_example = write_loop-front first_bytes (wrote 3 ∷ WriteReturn.error ∷ [])
