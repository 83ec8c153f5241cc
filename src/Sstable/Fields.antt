-- ===== src/Sstable/Fields.antt =====
-- Reading back what was written: a field at the cursor, a range of the file, a sealed payload, a
-- record and an entry of the index.
use kronos_engine.Prelude.{
  ℕ, ◌-◌, ◌%◌, ◌^◌, ◌<◌, ◌≡◌, refl, sym, ap, ◌∙◌, [], ◌∷◌, ◌++◌, Bytes, length, ok, length-append,
  take-length_append, drop-length_append, append_assoc, take_all, arith,
}
use kronos_engine.Types.{InternalEntry, OperationType, put, delete}
use kronos_engine.Codec.{encode_to_le, decode_from_le, decode-encode, length-encode_to_le}
use kronos_engine.Wal.Format.{operation_byte, checksum}
use kronos_engine.Sstable.Format.{SstableError, SparseIndexEntry, low, record_bytes, index_entry}
use kronos_engine.Sstable.Reader.{read_at, field, unseal, parse_index_entry}
use kronos_engine.Sstable.Lookup.{StoredRecord, parse_record}

pub field-append :
    (e : SstableError) (n : ℕ) (xs ys : Bytes) → length xs ≡ n → field e n (xs ++ ys) ≡ ok (xs, ys)
unfolding field
field-append e n xs ys h =
    rw (← h, take-length_append xs ys, drop-length_append xs ys)
      (ground (arith, length-append xs ys))

-- A part of a file, at its offset.
pub read_at-middle :
    (before part behind : Bytes)
    → read_at (length before) (length part) (before ++ (part ++ behind)) ≡ ok part
unfolding read_at
read_at-middle before part behind =
    rw (drop-length_append before (part ++ behind), take-length_append part behind)
      (ground (arith, length-append before (part ++ behind), length-append part behind))

pub low_small : (xs : Bytes) → length xs < 2 ^ 32 → low xs ≡ xs
low_small xs h = take_all (length xs % 2 ^ 32) xs (omega arith)

-- A payload before four bytes that store its checksum.
pub unseal-stored :
    (crc32 : Bytes → ℕ) (e : SstableError) (payload : Bytes)
    → unseal crc32 e (payload ++ encode_to_le 4 (checksum crc32 (low payload))) ≡ ok payload
unfolding unseal
unseal-stored crc32 e payload =
    let stored : Bytes = encode_to_le 4 (checksum crc32 (low payload)) in
    let size : length (payload ++ stored) - 4 ≡ length payload =
      omega (
        arith,
        length-append payload stored,
        length-encode_to_le 4 (checksum crc32 (low payload)),
      ) in
    rw (size, take-length_append payload stored, drop-length_append payload stored)
      (ground (arith, decode-encode 4 (checksum crc32 (low payload)) (omega arith)))

-- What `add` takes without a loss: lengths of 32 bits, and a number of 64.
pub record Fits (r : Bytes × InternalEntry) : Type 0 where
  pub key_fits : length r.0 < 2 ^ 32
  pub value_fits : length r.1.value < 2 ^ 32
  pub sequence_fits : r.1.sequence < 2 ^ 64

unfoldable pub stored : Bytes × InternalEntry → StoredRecord
stored r = record {
  sequence = r.1.sequence;
  operation_byte = operation_byte r.1.operation;
  key = r.0;
  value = r.1.value;
}

module _ (s o kl vl key value rest : Bytes) where
  parse_record-parts :
      length s ≡ 8
      → length o ≡ 1
      → length kl ≡ 4
      → length vl ≡ 4
      → length key ≡ decode_from_le kl
      → length value ≡ decode_from_le vl
      → parse_record (s ++ (o ++ (kl ++ (vl ++ (key ++ (value ++ rest))))))
        ≡ ok (
          record {
            sequence = decode_from_le s;
            operation_byte = decode_from_le o;
            key = key;
            value = value;
          },
          rest,
        )
  unfolding parse_record
  parse_record-parts hs ho hk hv hkey hvalue =
      rw
        (
          field-append _ 8 s (o ++ (kl ++ (vl ++ (key ++ (value ++ rest))))) hs,
          field-append _ 1 o (kl ++ (vl ++ (key ++ (value ++ rest)))) ho,
          field-append _ 4 kl (vl ++ (key ++ (value ++ rest))) hk,
          field-append _ 4 vl (key ++ (value ++ rest)) hv,
          field-append _ (decode_from_le kl) key (value ++ rest) hkey,
          field-append _ (decode_from_le vl) value rest hvalue,
        )
        refl

decode_operation_byte :
    (op : OperationType) → decode_from_le (operation_byte op ∷ []) ≡ operation_byte op
unfolding decode_from_le
decode_operation_byte delete = omega arith
decode_operation_byte put = omega arith

-- A record of a block reads back, whatever follows it.
pub parse_record-record_bytes :
    (r : Bytes × InternalEntry) (rest : Bytes)
    → Fits r
    → parse_record (record_bytes r ++ rest) ≡ ok (stored r, rest)
unfolding record_bytes stored
parse_record-record_bytes (key, e) rest f =
    ap parse_record (simp append_assoc)
    ∙ parse_record-parts (encode_to_le 8 e.sequence) (operation_byte e.operation ∷ [])
        (encode_to_le 4 (length key)) (encode_to_le 4 (length e.value)) key e.value rest
        (length-encode_to_le 8 e.sequence) refl (length-encode_to_le 4 (length key))
        (length-encode_to_le 4 (length e.value)) (sym (decode-encode 4 (length key) f.key_fits))
        (sym (decode-encode 4 (length e.value) f.value_fits))
    ∙ rw (decode-encode 8 e.sequence f.sequence_fits, decode_operation_byte e.operation) refl

pub record EntryFits (e : SparseIndexEntry) : Type 0 where
  pub key_fits : length e.first_key < 2 ^ 32
  pub offset_fits : e.block_offset < 2 ^ 64
  pub size_fits : e.block_size < 2 ^ 32

pub parse_index_entry-index_entry :
    (e : SparseIndexEntry) (rest : Bytes)
    → EntryFits e
    → parse_index_entry (index_entry e ++ rest) ≡ ok (e, rest)
unfolding parse_index_entry index_entry
parse_index_entry-index_entry e rest f =
    let kl = encode_to_le 4 (length e.first_key) in
    let o = encode_to_le 8 e.block_offset in
    let s = encode_to_le 4 e.block_size in
    ap parse_index_entry {y = kl ++ (e.first_key ++ (o ++ (s ++ rest)))} (simp append_assoc)
    ∙ rw
        (
          field-append _ 4 kl (e.first_key ++ (o ++ (s ++ rest)))
              (length-encode_to_le 4 (length e.first_key)),
          decode-encode 4 (length e.first_key) f.key_fits,
          field-append _ (length e.first_key) e.first_key (o ++ (s ++ rest)) refl,
          field-append _ 8 o (s ++ rest) (length-encode_to_le 8 e.block_offset),
          field-append _ 4 s rest (length-encode_to_le 4 e.block_size),
          decode-encode 8 e.block_offset f.offset_fits,
          decode-encode 4 e.block_size f.size_fits,
        )
        refl
