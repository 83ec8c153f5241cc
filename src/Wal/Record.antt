-- ===== src/Wal/Record.antt =====
-- Reading a record that was written: the round trip, and what a torn record reads as.
use kronos_engine.Prelude.{
  ℕ, ◌<◌, ◌≤◌, ◌≡◌, ◌⊎◌, inl, inr, refl, ap, ◌∙◌, sym, Option, none, some, [], ◌∷◌, ◌++◌, Bytes,
  length, length-append, append_assoc, append_split, length-take, take-length_append,
  drop-length_append, arith,
}
use native.Mathlib.Decide.{dec_le}
use kronos_engine.Codec.{encode_to_le, decode_from_le, decode-encode, length-encode_to_le}
use kronos_engine.Wal.Format.{
  RecoveredRecord, operation_byte, record_body, checksum, serialize, Fits, Follows,
}
use kronos_engine.Wal.Scan.{
  Parse, value, torn, bad, ◌>>=◌, read_field, read_sequence, read_operation, require_payload,
  verify_checksum, verify_sequence, read_record, non_increasing,
}

read_field-append :
    (n : ℕ) (xs ys : Bytes) → length xs ≡ n → read_field n (xs ++ ys) ≡ value (xs, ys)
unfolding read_field
read_field-append n xs ys h =
    rw (← h, take-length_append xs ys, drop-length_append xs ys) (ground arith)

read_sequence-append : (xs ys : Bytes) → length xs ≡ 8 → read_sequence (xs ++ ys) ≡ value (xs, ys)
unfolding read_sequence
read_sequence-append xs ys h =
    ground (arith, length-take 8 (xs ++ ys), length-append xs ys, read_field-append 8 xs ys h)

-- The parts of a record, each of the length that the format gives it.
pub record Parts : Type 0 where
  pub sequence_bytes : Bytes
  pub operation_bytes : Bytes
  pub key_length : Bytes
  pub value_length : Bytes
  pub key : Bytes
  pub val : Bytes
  pub stored : Bytes

abbrev pub body_of : Parts → Bytes
body_of p =
    p.sequence_bytes
    ++ (p.operation_bytes ++ (p.key_length ++ (p.value_length ++ (p.key ++ p.val))))

abbrev pub bytes_of : Parts → Bytes → Bytes
bytes_of p rest =
    p.sequence_bytes
    ++ (p.operation_bytes
        ++ (p.key_length ++ (p.value_length ++ (p.key ++ (p.val ++ (p.stored ++ rest))))))

pub record HasLengths (p : Parts) : Type 0 where
  pub sequence_length : length p.sequence_bytes ≡ 8
  pub operation_length : length p.operation_bytes ≡ 1
  pub key_field : length p.key_length ≡ 4
  pub value_field : length p.value_length ≡ 4
  pub key_size : length p.key ≡ decode_from_le p.key_length
  pub value_size : length p.val ≡ decode_from_le p.value_length
  pub stored_length : length p.stored ≡ 4

-- What is left to do once the fields are cut apart.
abbrev pub judge : (Bytes → ℕ) → Option ℕ → Parts → Bytes → Parse (RecoveredRecord × Bytes)
judge crc32 previous p rest = do
  operation ←
      read_operation p.operation_bytes
        (p.key_length ++ (p.value_length ++ (p.key ++ (p.val ++ (p.stored ++ rest)))))
  _ ← verify_checksum crc32 (body_of p) p.stored rest
  _ ← verify_sequence previous (decode_from_le p.sequence_bytes) rest
  value (
    record {
      sequence = decode_from_le p.sequence_bytes;
      operation = operation;
      key = p.key;
      value = p.val;
    },
    rest,
  )

require_payload-append :
    (p : Parts) (rest : Bytes)
    → HasLengths p
    → require_payload
        (decode_from_le p.key_length)
        (decode_from_le p.value_length)
        (p.key ++ (p.val ++ (p.stored ++ rest)))
      ≡ value tt
unfolding require_payload
require_payload-append p rest h = ground (
  arith,
  length-append p.key (p.val ++ (p.stored ++ rest)),
  length-append p.val (p.stored ++ rest),
  length-append p.stored rest,
)

read_record-parts :
    (crc32 : Bytes → ℕ) (previous : Option ℕ) (p : Parts) (rest : Bytes)
    → HasLengths p
    → read_record crc32 previous (bytes_of p rest) ≡ judge crc32 previous p rest
unfolding read_record
read_record-parts crc32 previous p rest h = ground (
  arith,
  read_sequence-append p.sequence_bytes (
      p.operation_bytes
      ++ (p.key_length ++ (p.value_length ++ (p.key ++ (p.val ++ (p.stored ++ rest)))))),
  read_field-append 1 p.operation_bytes
      (p.key_length ++ (p.value_length ++ (p.key ++ (p.val ++ (p.stored ++ rest))))),
  read_field-append 4 p.key_length (p.value_length ++ (p.key ++ (p.val ++ (p.stored ++ rest)))),
  read_field-append 4 p.value_length (p.key ++ (p.val ++ (p.stored ++ rest))),
  require_payload-append p rest h,
  read_field-append (decode_from_le p.key_length) p.key (p.val ++ (p.stored ++ rest)),
  read_field-append (decode_from_le p.value_length) p.val (p.stored ++ rest),
  read_field-append 4 p.stored rest,
)

unfoldable pub parts_of : (Bytes → ℕ) → RecoveredRecord → Parts
parts_of crc32 r = record {
  sequence_bytes = encode_to_le 8 r.sequence;
  operation_bytes = operation_byte r.operation ∷ [];
  key_length = encode_to_le 4 (length r.key);
  value_length = encode_to_le 4 (length r.value);
  key = r.key;
  val = r.value;
  stored = encode_to_le 4 (checksum crc32 (record_body r));
}

module _ (crc32 : Bytes → ℕ) (r : RecoveredRecord) (f : Fits r) where
  pub parts_of-HasLengths : HasLengths (parts_of crc32 r)
  unfolding parts_of
  parts_of-HasLengths = record {
    sequence_length = length-encode_to_le 8 r.sequence;
    operation_length = refl;
    key_field = length-encode_to_le 4 (length r.key);
    value_field = length-encode_to_le 4 (length r.value);
    key_size = sym (decode-encode 4 (length r.key) f.key_fits);
    value_size = sym (decode-encode 4 (length r.value) f.value_fits);
    stored_length = length-encode_to_le 4 (checksum crc32 (record_body r));
  }

  pub serialize-parts :
      (rest : Bytes) → serialize crc32 r ++ rest ≡ bytes_of (parts_of crc32 r) rest
  unfolding serialize record_body parts_of
  serialize-parts rest = simp append_assoc

  pub read_operation-byte :
      (rest : Bytes) → read_operation (operation_byte r.operation ∷ []) rest ≡ value r.operation
  unfolding read_operation decode_from_le
  read_operation-byte rest = ground arith

  verify_checksum-own :
      (rest : Bytes)
      → verify_checksum crc32 (record_body r) (encode_to_le 4 (checksum crc32 (record_body r))) rest
        ≡ value tt
  unfolding verify_checksum
  verify_checksum-own rest =
      ground (arith, decode-encode 4 (checksum crc32 (record_body r)) (omega arith))

  verify_sequence-Follows :
      (previous : Option ℕ) (rest : Bytes)
      → Follows previous r.sequence
      → verify_sequence previous r.sequence rest ≡ value tt
  unfolding verify_sequence
  verify_sequence-Follows none rest h = ground (arith, f.sequence_fits)
  verify_sequence-Follows (some n) rest h = ground (arith, f.sequence_fits)

  decode_sequence : decode_from_le (encode_to_le 8 r.sequence) ≡ r.sequence
  decode_sequence = decode-encode 8 r.sequence (omega (arith, f.sequence_fits))

  judge-own :
      (previous : Option ℕ) (rest : Bytes)
      → judge crc32 previous (parts_of crc32 r) rest
        ≡ (do _ ← verify_sequence previous r.sequence rest; value (r, rest))
  unfolding parts_of record_body
  judge-own previous rest =
      rw (read_operation-byte _, verify_checksum-own rest, decode_sequence) refl

  -- The bytes that `writeRecord` makes of a record within the limits of the format read back as the
  -- record, and leave the bytes behind it, whatever those are, where no record was read before it
  -- or one with a smaller sequence number.
  pub read_record-serialize :
      (previous : Option ℕ) (rest : Bytes)
      → Follows previous r.sequence
      → read_record crc32 previous (serialize crc32 r ++ rest) ≡ value (r, rest)
  read_record-serialize previous rest h =
      ap (read_record crc32 previous) (serialize-parts rest)
      ∙ read_record-parts crc32 previous (parts_of crc32 r) rest parts_of-HasLengths
      ∙ judge-own previous rest
      ∙ rw (verify_sequence-Follows previous rest h) refl

  -- A record whose number does not go past the one before it stops the recovery.
  pub read_record-non_increasing :
      (n : ℕ) (rest : Bytes)
      → r.sequence ≤ n
      → read_record crc32 (some n) (serialize crc32 r ++ rest) ≡ bad non_increasing rest
  read_record-non_increasing n rest h =
      ap (read_record crc32 (some n)) (serialize-parts rest)
      ∙ read_record-parts crc32 (some n) (parts_of crc32 r) rest parts_of-HasLengths
      ∙ judge-own (some n) rest
      ∙ unfold verify_sequence in ground arith

-- Cutting a field off bytes that are the front of a longer text: the field is there whole, or the
-- front ends inside it.
pub cut_field :
    (n : ℕ) (front back field rest : Bytes)
    → length field ≡ n
    → front ++ back ≡ field ++ rest
    → ((read_field n front ≡ torn) × (length front < n))
      ⊎ ((left : Bytes) × (read_field n front ≡ value (field, left))
          × (front ≡ field ++ left)
          × (left ++ back ≡ rest))
unfolding read_field
cut_field n front back field rest h e = elim (dec_le (length field) (length front)) [
  | yes fits ↦
      let (left, p, q) = append_split front back field rest e fits in
      inr (left, rw p (read_field-append n field left h), p, q)
  | no short ↦ inl (ground (arith, length-take n front), omega arith)
]
