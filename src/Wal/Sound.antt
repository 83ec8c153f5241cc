-- ===== src/Wal/Sound.antt =====
-- What was read is what stands in the file: the bytes of an accepted record are its serialization.
use kronos_engine.Prelude.{
  ℕ, ◌-◌, ◌^◌, ◌<◌, ◌≡◌, ◌≢◌, refl, All-split, ap, sym, subst, Option, none, some, [], ◌∷◌, ◌++◌,
  Bytes, All, length, append_assoc, take-append-drop, arith,
}
use kronos_engine.Types.{OperationType, put, delete}
use kronos_engine.Codec.{IsByte, encode_to_le, decode_from_le, encode-decode, decode-lt}
use kronos_engine.Wal.Format.{
  RecoveredRecord, operation_byte, record_body, checksum, serialize, Fits, Follows,
}
use kronos_engine.Wal.Scan.{
  Parse, value, clean, torn, bad, ◌>>=◌, read_field, read_sequence, read_operation, require_payload,
  verify_checksum, verify_sequence, read_record,
}
use kronos_engine.Wal.Record.{Parts, HasLengths, body_of, bytes_of}

>>=-cases {ℓ κ μ} :
    {A : Type ℓ} {B : Type κ} {C : Type μ} (m : Parse A) (f : A → Parse B) {b : B}
    → (m >>= f) ≡ value b
    → ((a : A) → m ≡ value a → f a ≡ value b → C)
    → C
>>=-cases (value a) f h k = k a refl h
>>=-cases clean f h k = absurd (cc h)
>>=-cases torn f h k = absurd (cc h)
>>=-cases (bad e u) f h k = absurd (cc h)

read_field-eq-value :
    (n : ℕ) (xs : Bytes) (q : Bytes × Bytes)
    → read_field n xs ≡ value q
    → (xs ≡ q.0 ++ q.1) × (length q.0 ≡ n)
unfolding read_field
read_field-eq-value n xs q h = ground (arith, take-append-drop n xs)

read_sequence-eq-value :
    (xs : Bytes) (q : Bytes × Bytes)
    → read_sequence xs ≡ value q
    → (xs ≡ q.0 ++ q.1) × (length q.0 ≡ 8)
unfolding read_sequence
read_sequence-eq-value xs q h = ground (arith, read_field-eq-value 8 xs q)

verify_checksum-eq-value :
    (crc32 : Bytes → ℕ) (bytes stored rest : Bytes) (u : Unit {0})
    → verify_checksum crc32 bytes stored rest ≡ value u
    → checksum crc32 bytes ≡ decode_from_le stored
unfolding verify_checksum
verify_checksum-eq-value crc32 bytes stored rest u h = ground arith

verify_sequence-eq-value :
    (previous : Option ℕ) (n : ℕ) (rest : Bytes) (u : Unit {0})
    → verify_sequence previous n rest ≡ value u
    → Follows previous n × (n ≢ 2 ^ 64 - 1)
unfolding verify_sequence
verify_sequence-eq-value none n rest u h = (tt, ground arith)
verify_sequence-eq-value (some p) n rest u h = ground arith

read_operation-eq-value :
    (bytes rest : Bytes) (op : OperationType)
    → length bytes ≡ 1
    → read_operation bytes rest ≡ value op
    → bytes ≡ operation_byte op ∷ []
unfolding read_operation decode_from_le
read_operation-eq-value [] rest op l h = absurd (omega arith)
read_operation-eq-value (b ∷ []) rest put l h = ground arith
read_operation-eq-value (b ∷ []) rest delete l h = ground arith
read_operation-eq-value (b ∷ c ∷ bs) rest op l h = absurd (omega arith)

-- A record that was read, as the fields that the file holds.
record Accepted (crc32 : Bytes → ℕ) (previous : Option ℕ) (xs : Bytes) (q : RecoveredRecord × Bytes)
    : Type 0 where
  parts : Parts
  left : Bytes
  op : OperationType
  lengths : HasLengths parts
  cut : xs ≡ bytes_of parts left
  legal : parts.operation_bytes ≡ operation_byte op ∷ []
  checked : checksum crc32 (body_of parts) ≡ decode_from_le parts.stored
  follows : Follows previous (decode_from_le parts.sequence_bytes)
  not_last : decode_from_le parts.sequence_bytes ≢ 2 ^ 64 - 1
  result :
      (
        record {
          sequence = decode_from_le parts.sequence_bytes;
          operation = op;
          key = parts.key;
          value = parts.val;
        },
        left,
      )
      ≡ q

value-injective {ℓ} : {A : Type ℓ} {a b : A} → value a ≡ value b → a ≡ b
value-injective h = cc h

read_record-Accepted :
    (crc32 : Bytes → ℕ) (previous : Option ℕ) (xs : Bytes) (q : RecoveredRecord × Bytes)
    → read_record crc32 previous xs ≡ value q
    → Accepted crc32 previous xs q
unfolding read_record
read_record-Accepted crc32 previous xs q e = >>=-cases (read_sequence xs) _ e λ a₁ m₁ e₁.
    >>=-cases (read_field 1 a₁.1) _ e₁ λ a₂ m₂ e₂.
      >>=-cases (read_operation a₂.0 a₂.1) _ e₂ λ op m₃ e₃.
        >>=-cases (read_field 4 a₂.1) _ e₃ λ a₄ m₄ e₄.
          >>=-cases (read_field 4 a₄.1) _ e₄ λ a₅ m₅ e₅.
            >>=-cases (require_payload (decode_from_le a₄.0) (decode_from_le a₅.0) a₅.1) _ e₅
              λ _ _ e₆. >>=-cases (read_field (decode_from_le a₄.0) a₅.1) _ e₆ λ a₇ m₇ e₇.
                >>=-cases (read_field (decode_from_le a₅.0) a₇.1) _ e₇ λ a₈ m₈ e₈.
                  >>=-cases (read_field 4 a₈.1) _ e₈ λ a₉ m₉ e₉.
                    >>=-cases
                      (verify_checksum crc32 (a₁.0 ++ (a₂.0 ++ (a₄.0 ++ (a₅.0 ++ (a₇.0 ++ a₈.0)))))
                        a₉.0 a₉.1)
                      _ e₉
                      λ _ m₁₀ e₁₀.
                        >>=-cases (verify_sequence previous (decode_from_le a₁.0) a₉.1) _ e₁₀
                          λ _ m₁₁ e₁₁.
                            let (c₁, l₁) = read_sequence-eq-value xs a₁ m₁ in
                            let (c₂, l₂) = read_field-eq-value 1 a₁.1 a₂ m₂ in
                            let (c₄, l₄) = read_field-eq-value 4 a₂.1 a₄ m₄ in
                            let (c₅, l₅) = read_field-eq-value 4 a₄.1 a₅ m₅ in
                            let (c₇, l₇) = read_field-eq-value (decode_from_le a₄.0) a₅.1 a₇ m₇ in
                            let (c₈, l₈) = read_field-eq-value (decode_from_le a₅.0) a₇.1 a₈ m₈ in
                            let (c₉, l₉) = read_field-eq-value 4 a₈.1 a₉ m₉ in
                            let (follows, not_last) =
                              verify_sequence-eq-value previous (decode_from_le a₁.0) a₉.1 _ m₁₁ in
                            record {
                              parts = record {
                                sequence_bytes = a₁.0;
                                operation_bytes = a₂.0;
                                key_length = a₄.0;
                                value_length = a₅.0;
                                key = a₇.0;
                                val = a₈.0;
                                stored = a₉.0;
                              };
                              left = a₉.1;
                              op = op;
                              lengths = record {
                                sequence_length = l₁;
                                operation_length = l₂;
                                key_field = l₄;
                                value_field = l₅;
                                key_size = l₇;
                                value_size = l₈;
                                stored_length = l₉;
                              };
                              cut = cc (c₁, c₂, c₄, c₅, c₇, c₈, c₉);
                              legal = read_operation-eq-value a₂.0 a₂.1 op l₂ m₃;
                              checked = verify_checksum-eq-value crc32 _ a₉.0 a₉.1 _ m₁₀;
                              follows = follows;
                              not_last = not_last;
                              result = value-injective e₁₁;
                            }

-- A field of known length is the encoding of the number that it reads as.
field-encode :
    (n : ℕ) (field : Bytes)
    → length field ≡ n
    → All IsByte field
    → encode_to_le n (decode_from_le field) ≡ field
field-encode n field l b =
    subst (λ k. encode_to_le k (decode_from_le field) ≡ field) l (encode-decode field b)

field-lt :
    (n : ℕ) (field : Bytes) → length field ≡ n → All IsByte field → decode_from_le field < 256 ^ n
field-lt n field l b = subst (λ k. decode_from_le field < 256 ^ k) l (decode-lt field b)

module _ {crc32 : Bytes → ℕ} {previous : Option ℕ} {xs : Bytes} {q : RecoveredRecord × Bytes}
    (a : Accepted crc32 previous xs q) (bytes : All IsByte xs) where
  open a use {parts, left, op, lengths}

  accepted : RecoveredRecord
  accepted = record {
    sequence = decode_from_le parts.sequence_bytes;
    operation = op;
    key = parts.key;
    value = parts.val;
  }

  record FieldBytes : Type 0 where
    of_sequence : All IsByte parts.sequence_bytes
    of_key_length : All IsByte parts.key_length
    of_value_length : All IsByte parts.value_length
    of_stored : All IsByte parts.stored

  fields-IsByte : FieldBytes
  fields-IsByte =
      let whole = subst (All IsByte) a.cut bytes in
      let (b₁, r₁) = All-split IsByte parts.sequence_bytes _ whole in
      let (b₂, r₂) = All-split IsByte parts.operation_bytes _ r₁ in
      let (b₃, r₃) = All-split IsByte parts.key_length _ r₂ in
      let (b₄, r₄) = All-split IsByte parts.value_length _ r₃ in
      let (b₅, r₅) = All-split IsByte parts.key _ r₄ in
      let (b₆, r₆) = All-split IsByte parts.val _ r₅ in
      let (b₇, r₇) = All-split IsByte parts.stored _ r₆ in
      record { of_sequence = b₁; of_key_length = b₃; of_value_length = b₄; of_stored = b₇ }

  body-accepted : record_body accepted ≡ body_of parts
  unfolding record_body accepted
  body-accepted =
      let f = fields-IsByte in
      cc (
        field-encode 8 parts.sequence_bytes lengths.sequence_length f.of_sequence,
        a.legal,
        field-encode 4 parts.key_length lengths.key_field f.of_key_length,
        field-encode 4 parts.value_length lengths.value_field f.of_value_length,
        lengths.key_size,
        lengths.value_size,
      )

  serialize-accepted : serialize crc32 accepted ++ left ≡ xs
  unfolding serialize
  serialize-accepted =
      rw
        (
          body-accepted,
          a.checked,
          field-encode 4 parts.stored lengths.stored_length fields-IsByte.of_stored,
        )
        (simp append_assoc (sym a.cut))

  accepted-Fits : Fits accepted
  unfolding accepted
  accepted-Fits =
      let f = fields-IsByte in
      record {
        key_fits =
            rw lengths.key_size (field-lt 4 parts.key_length lengths.key_field f.of_key_length);
        value_fits =
            rw lengths.value_size
              (field-lt 4 parts.value_length lengths.value_field f.of_value_length);
        sequence_fits = omega (
          arith,
          a.not_last,
          field-lt 8 parts.sequence_bytes lengths.sequence_length f.of_sequence,
        );
      }

-- A record that recovery accepts stands in the file as the very bytes that `writeRecord` writes for
-- it, it keeps the limits of `writeRecord`, and its number goes past the one before it.
pub read_record_sound :
    (crc32 : Bytes → ℕ) (previous : Option ℕ) (xs : Bytes) (r : RecoveredRecord) (rest : Bytes)
    → All IsByte xs
    → read_record crc32 previous xs ≡ value (r, rest)
    → (xs ≡ serialize crc32 r ++ rest) × Fits r × Follows previous r.sequence
read_record_sound crc32 previous xs r rest bytes e =
    let a = read_record-Accepted crc32 previous xs (r, rest) e in
    let same : accepted a bytes ≡ r =
      unfold accepted in ap (λ (q : RecoveredRecord × Bytes). q.0) a.result in
    let left_same = ap (λ (q : RecoveredRecord × Bytes). q.1) a.result in
    (
      rw (← same, ← left_same) (sym (serialize-accepted a bytes)),
      subst Fits same (accepted-Fits a bytes),
      subst (λ (x : RecoveredRecord). Follows previous x.sequence) same
          (unfold accepted in a.follows),
    )
