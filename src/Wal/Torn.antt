-- ===== src/Wal/Torn.antt =====
-- What a torn record reads as: bytes that are a proper front of a serialized record.
use kronos_engine.Prelude.{
  ℕ, ◌≡◌, ◌⊎◌, inl, inr, refl, ◌∙◌, sym, Option, [], ◌∷◌, ◌++◌, Bytes, append-nil, arith,
}
use kronos_engine.Types.{OperationType}
use kronos_engine.Codec.{decode_from_le}
use kronos_engine.Wal.Format.{RecoveredRecord, serialize, Fits}
use kronos_engine.Wal.Scan.{
  Parse, value, clean, torn, ◌>>=◌, read_field, read_sequence, read_operation, require_payload,
  read_record,
}
use kronos_engine.Wal.Record.{
  Parts, parts_of, parts_of-HasLengths, HasLengths, bytes_of, serialize-parts, cut_field,
  read_operation-byte,
}

abbrev IsTorn : Bytes → Parse (RecoveredRecord × Bytes) → Type 0
IsTorn front p = ((front ≡ []) × (p ≡ clean)) ⊎ (p ≡ torn)

read_sequence-cons : (x : ℕ) (xs : Bytes) → read_sequence (x ∷ xs) ≡ read_field 8 (x ∷ xs)
unfolding read_sequence
read_sequence-cons x xs = ground arith

-- `payload` is enough, or the record is torn: never an exception.
require_payload-cases :
    (k v : ℕ) (rest : Bytes)
    → (require_payload k v rest ≡ torn) ⊎ (require_payload k v rest ≡ value tt)
unfolding require_payload
require_payload-cases k v rest = ground arith

module _ (p : Parts) (h : HasLengths p) (b : ℕ) (bs : Bytes) where
  -- The fields from the key on.
  payload-torn :
      {A : Type 0} (front : Bytes) (g : Bytes → Bytes → Bytes → Bytes → Parse A)
      → front ++ (b ∷ bs) ≡ p.key ++ (p.val ++ (p.stored ++ []))
      → (do
        (key, rest₅) ← read_field (decode_from_le p.key_length) front
        (val, rest₆) ← read_field (decode_from_le p.value_length) rest₅
        (stored, rest₇) ← read_field 4 rest₆
        g key val stored rest₇)
        ≡ torn
  payload-torn front g e =
      elim (cut_field (decode_from_le p.key_length) front (b ∷ bs) p.key _ h.key_size e) [
        | inl (t, _) ↦ rw t refl
        | inr (l₁, t₁, _, e₁) ↦
            elim (cut_field (decode_from_le p.value_length) l₁ (b ∷ bs) p.val _ h.value_size e₁) [
              | inl (t, _) ↦ rw (t₁, t) refl
              | inr (l₂, t₂, _, e₂) ↦
                  elim (cut_field 4 l₂ (b ∷ bs) p.stored [] h.stored_length e₂) [
                    | inl (t, _) ↦ rw (t₁, t₂, t) refl
                    | inr (l₃, _, _, e₃) ↦ absurd (append-ne-nil l₃ e₃)
                  ]
            ]
      ]
    where
      append-ne-nil : (l : Bytes) → ¬ (l ++ (b ∷ bs) ≡ [])
      append-ne-nil [] e' = cc
      append-ne-nil (x ∷ xs) e' = cc

module _ (crc32 : Bytes → ℕ) (previous : Option ℕ) (p : Parts) (h : HasLengths p) (b : ℕ)
    (bs : Bytes) (op : OperationType)
    (legal : (rest : Bytes) → read_operation p.operation_bytes rest ≡ value op) where
  read_record-front :
      (x : ℕ) (xs : Bytes)
      → (x ∷ xs) ++ (b ∷ bs) ≡ bytes_of p []
      → read_record crc32 previous (x ∷ xs) ≡ torn
  unfolding read_record
  read_record-front x xs e =
      rw (read_sequence-cons x xs)
        (elim (cut_field 8 (x ∷ xs) (b ∷ bs) p.sequence_bytes _ h.sequence_length e) [
          | inl (t, _) ↦ rw t refl
          | inr (l₁, t₁, _, e₁) ↦
              elim (cut_field 1 l₁ (b ∷ bs) p.operation_bytes _ h.operation_length e₁) [
                | inl (t, _) ↦ rw (t₁, t) refl
                | inr (l₂, t₂, _, e₂) ↦
                    elim (cut_field 4 l₂ (b ∷ bs) p.key_length _ h.key_field e₂) [
                      | inl (t, _) ↦ rw (t₁, t₂, legal l₂, t) refl
                      | inr (l₃, t₃, _, e₃) ↦
                          elim (cut_field 4 l₃ (b ∷ bs) p.value_length _ h.value_field e₃) [
                            | inl (t, _) ↦ rw (t₁, t₂, legal l₂, t₃, t) refl
                            | inr (l₄, t₄, _, e₄) ↦
                                elim (require_payload-cases (decode_from_le p.key_length)
                                  (decode_from_le p.value_length) l₄) [
                                    | inl t ↦ rw (t₁, t₂, legal l₂, t₃, t₄, t) refl
                                    | inr fits ↦
                                        rw (t₁, t₂, legal l₂, t₃, t₄, fits)
                                          (payload-torn p h b bs l₄ _ e₄)
                                  ]
                          ]
                    ]
              ]
        ])

-- A proper front of a record, at least a byte of it, reads as an incomplete tail: a torn write is
-- never taken for a record, nor for corruption.
pub read_record-torn :
    (crc32 : Bytes → ℕ) (previous : Option ℕ) (r : RecoveredRecord) (x b : ℕ) (xs bs : Bytes)
    → Fits r
    → serialize crc32 r ≡ (x ∷ xs) ++ (b ∷ bs)
    → read_record crc32 previous (x ∷ xs) ≡ torn
read_record-torn crc32 previous r x b xs bs f e =
    read_record-front crc32 previous (parts_of crc32 r) (parts_of-HasLengths crc32 r f) b bs
      r.operation (unfold parts_of in read_operation-byte crc32 r f) x xs
      (sym e ∙ sym (append-nil _) ∙ serialize-parts crc32 r f [])
