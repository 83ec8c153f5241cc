-- ===== src/Wal/Scan.antt =====
-- One round of the loop in `Wal::recover` (src/wal.cpp): the record that begins at the cursor. The
-- unread bytes of the file are a list, so the cursor is the file's size less their number, and
-- `readUpTo` takes what it can from their front.
use kronos_engine.Prelude.{
  ℕ, ◌+◌, ◌-◌, ◌^◌, Bool, true, Option, none, some, ◌++◌, Bytes, length, take, drop, ◌==◌, ltb,
  if◌then◌else◌,
}
use kronos_engine.Types.{OperationType}
use kronos_engine.Codec.{decode_from_le}
use kronos_engine.Wal.Format.{RecoveredRecord, decode_operation, checksum}

-- The exceptions of the log.
pub data WalError : Type 0 where
  invalid_header too_large sequence_exhausted write_failed fsync_failed : WalError
  invalid_operation crc_mismatch non_increasing : WalError
  -- no exception: the process stopped in a system call
  process_stopped : WalError
  -- no exception: the fuel of the model's loop ran out
  out_of_fuel : WalError

-- How reading a part of a record ends: with a value; at a clean end of the file; inside an
-- incomplete last record; with an exception, thrown before these bytes were read.
pub data Parse {ℓ} (A : Type ℓ) : Type ℓ where
  value : A → Parse A
  clean torn : Parse A
  bad : WalError → Bytes → Parse A

infixl 5 ◌>>=◌
abbrev pub ◌>>=◌ {ℓ κ} : {A : Type ℓ} {B : Type κ} → Parse A → (A → Parse B) → Parse B
value a >>= f = f a
clean >>= f = clean
torn >>= f = torn
bad e unread >>= f = bad e unread

-- `readUpTo(buffer, n) != n` ends the scan at an incomplete record.
unfoldable pub read_field : ℕ → Bytes → Parse (Bytes × Bytes)
read_field n rest = if length (take n rest) == n then value (take n rest, drop n rest) else torn

-- The first field: at the end of the file there is no further record.
unfoldable pub read_sequence : Bytes → Parse (Bytes × Bytes)
read_sequence rest = if length (take 8 rest) == 0 then clean else read_field 8 rest

unfoldable pub read_operation : Bytes → Bytes → Parse OperationType
read_operation byte rest = elim (decode_operation (decode_from_le byte)) [
  | none ↦ bad invalid_operation rest
  | some op ↦ value op
]

-- `requiredBytes > bytesRemaining`: the payload does not fit in the file.
unfoldable pub require_payload : ℕ → ℕ → Bytes → Parse (Unit {0})
require_payload key_length value_length rest =
    if ltb (length rest) (key_length + value_length + 4) then torn else value tt

unfoldable pub verify_checksum : (Bytes → ℕ) → Bytes → Bytes → Bytes → Parse (Unit {0})
verify_checksum crc32 record_bytes stored rest =
    if checksum crc32 record_bytes == decode_from_le stored then value tt else bad crc_mismatch rest

abbrev pub precedes : Option ℕ → ℕ → Bool
precedes none n = true
precedes (some p) n = ltb p n

unfoldable pub verify_sequence : Option ℕ → ℕ → Bytes → Parse (Unit {0})
verify_sequence previous n rest =
    if precedes previous n
    then (if n == 2 ^ 64 - 1 then bad sequence_exhausted rest else value tt)
    else bad non_increasing rest

-- One record and the bytes behind it.
unfoldable pub read_record : (Bytes → ℕ) → Option ℕ → Bytes → Parse (RecoveredRecord × Bytes)
read_record crc32 previous rest₀ = do
  (sequence_bytes, rest₁) ← read_sequence rest₀
  (operation_bytes, rest₂) ← read_field 1 rest₁
  operation ← read_operation operation_bytes rest₂
  (key_length, rest₃) ← read_field 4 rest₂
  (value_length, rest₄) ← read_field 4 rest₃
  _ ← require_payload (decode_from_le key_length) (decode_from_le value_length) rest₄
  (key, rest₅) ← read_field (decode_from_le key_length) rest₄
  (val, rest₆) ← read_field (decode_from_le value_length) rest₅
  (stored, rest₇) ← read_field 4 rest₆
  let record_bytes =
      sequence_bytes ++ (operation_bytes ++ (key_length ++ (value_length ++ (key ++ val))))
  _ ← verify_checksum crc32 record_bytes stored rest₇
  _ ← verify_sequence previous (decode_from_le sequence_bytes) rest₇
  value (
    record {
      sequence = decode_from_le sequence_bytes;
      operation = operation;
      key = key;
      value = val;
    },
    rest₇,
  )
