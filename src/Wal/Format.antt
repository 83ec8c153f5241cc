-- ===== src/Wal/Format.antt =====
-- The log's file format (src/wal.cpp, the comment at its top, `writeRecord` and `reclaimThrough`):
-- the header and the serialization of one record. `crc32` is zlib's, a parameter.
use kronos_engine.Prelude.{
  ℕ, ◌+◌, ◌-◌, ◌%◌, ◌^◌, ◌<◌, ◌≡◌, refl, ap, ◌∙◌, sym, Option, none, some, List, [], ◌∷◌, ◌++◌,
  Bytes, length, length-append, append_assoc, ◌==◌, if◌then◌else◌, arith,
}
use kronos_engine.Types.{OperationType, delete, put}
use kronos_engine.Codec.{encode_to_le, length-encode_to_le}

pub record RecoveredRecord : Type 0 where
  pub sequence : ℕ
  pub operation : OperationType
  pub key : Bytes
  pub value : Bytes

abbrev pub magic : Bytes
magic = 75 ∷ 82 ∷ 87 ∷ 76 ∷ []

abbrev pub version : ℕ
version = 1

-- `[Magic][Version]`
abbrev pub header : Bytes
header = 75 ∷ 82 ∷ 87 ∷ 76 ∷ 1 ∷ []

-- `static_cast<uint8_t>(operation)`
abbrev pub operation_byte : OperationType → ℕ
operation_byte delete = 0
operation_byte put = 1

abbrev pub decode_operation : ℕ → Option OperationType
decode_operation byte = if byte == 1 then some put else if byte == 0 then some delete else none

-- The bytes that the checksum is taken over.
unfoldable pub record_body : RecoveredRecord → Bytes
record_body r =
    encode_to_le 8 r.sequence
    ++ (operation_byte r.operation
        ∷ (encode_to_le 4 (length r.key)
            ++ (encode_to_le 4 (length r.value) ++ (r.key ++ r.value))))

-- `static_cast<uint32_t>(crc)`
abbrev pub checksum : (Bytes → ℕ) → Bytes → ℕ
checksum crc32 bytes = crc32 bytes % 2 ^ 32

-- `[Sequence][Operation][Key Length][Value Length][Key][Value][CRC32]`
unfoldable pub serialize : (Bytes → ℕ) → RecoveredRecord → Bytes
serialize crc32 r = record_body r ++ encode_to_le 4 (checksum crc32 (record_body r))

unfoldable pub serialize_all : (Bytes → ℕ) → List RecoveredRecord → Bytes
serialize_all crc32 [] = []
serialize_all crc32 (r ∷ rs) = serialize crc32 r ++ serialize_all crc32 rs

-- What `writeRecord` checks before it writes: the lengths fit in a uint32_t, and the sequence
-- number has a successor.
pub record Fits (r : RecoveredRecord) : Type 0 where
  pub key_fits : length r.key < 2 ^ 32
  pub value_fits : length r.value < 2 ^ 32
  pub sequence_fits : r.sequence < 2 ^ 64 - 1

-- The sequence numbers of a log that come after `prev` ascend.
abbrev pub Follows : Option ℕ → ℕ → Type 0
Follows none n = Unit {0}
Follows (some p) n = p < n

abbrev pub Ascends : Option ℕ → List RecoveredRecord → Type 0
Ascends prev [] = Unit {0}
Ascends prev (r ∷ rs) = Follows prev r.sequence × Ascends (some r.sequence) rs

pub serialize_all-append :
    (crc32 : Bytes → ℕ) (rs qs : List RecoveredRecord)
    → serialize_all crc32 (rs ++ qs) ≡ serialize_all crc32 rs ++ serialize_all crc32 qs
unfolding serialize_all
serialize_all-append crc32 [] qs = refl
serialize_all-append crc32 (r ∷ rs) qs =
    ap (◌++◌ (serialize crc32 r)) (serialize_all-append crc32 rs qs)
    ∙ sym (append_assoc (serialize crc32 r) _ _)

pub length-serialize :
    (crc32 : Bytes → ℕ) (r : RecoveredRecord)
    → length (serialize crc32 r) ≡ 21 + length r.key + length r.value
unfolding serialize record_body
length-serialize crc32 r = simp (length-append, length-encode_to_le) (omega arith)
