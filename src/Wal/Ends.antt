-- ===== src/Wal/Ends.antt =====
-- How the reading of one record can end: only the end of the file reads as the end of the log.
use kronos_engine.Prelude.{
  ℕ, ◌≡◌, ◌≢◌, Option, none, some, [], ◌∷◌, ◌++◌, Bytes, arith, subst, refl,
}
use kronos_engine.Codec.{decode_from_le}
use kronos_engine.Wal.Scan.{
  Parse, value, clean, torn, bad, ◌>>=◌, WalError, out_of_fuel, read_field, read_sequence,
  read_operation, require_payload, verify_checksum, verify_sequence, read_record,
}

-- Not the end of the log, and no exception but the source's.
abbrev IsInside {ℓ} : {A : Type ℓ} → Parse A → Type 0
IsInside (value a) = Unit
IsInside clean = ⊥
IsInside torn = Unit
IsInside (bad e unread) = e ≢ out_of_fuel

>>=-IsInside {ℓ κ} :
    {A : Type ℓ} {B : Type κ} (m : Parse A) (f : A → Parse B)
    → IsInside m
    → ((a : A) → IsInside (f a))
    → IsInside (m >>= f)
>>=-IsInside (value a) f h k = k a
>>=-IsInside clean f h k = h
>>=-IsInside torn f h k = h
>>=-IsInside (bad e unread) f h k = h

read_field-IsInside : (n : ℕ) (xs : Bytes) → IsInside (read_field n xs)
unfolding read_field
read_field-IsInside n xs = ground arith

read_sequence-IsInside : (x : ℕ) (xs : Bytes) → IsInside (read_sequence (x ∷ xs))
unfolding read_sequence
read_sequence-IsInside x xs = ground (arith, read_field-IsInside 8 (x ∷ xs))

read_operation-IsInside : (byte rest : Bytes) → IsInside (read_operation byte rest)
unfolding read_operation
read_operation-IsInside byte rest = ground arith

require_payload-IsInside : (k v : ℕ) (rest : Bytes) → IsInside (require_payload k v rest)
unfolding require_payload
require_payload-IsInside k v rest = ground arith

verify_checksum-IsInside :
    (crc32 : Bytes → ℕ) (bytes stored rest : Bytes)
    → IsInside (verify_checksum crc32 bytes stored rest)
unfolding verify_checksum
verify_checksum-IsInside crc32 bytes stored rest = ground arith

verify_sequence-IsInside :
    (previous : Option ℕ) (n : ℕ) (rest : Bytes) → IsInside (verify_sequence previous n rest)
unfolding verify_sequence
verify_sequence-IsInside none n rest = ground arith
verify_sequence-IsInside (some p) n rest = ground arith

pub read_record-IsInside :
    (crc32 : Bytes → ℕ) (previous : Option ℕ) (x : ℕ) (xs : Bytes)
    → IsInside (read_record crc32 previous (x ∷ xs))
unfolding read_record
read_record-IsInside crc32 previous x xs =
    >>=-IsInside (read_sequence (x ∷ xs)) _ (read_sequence-IsInside x xs) λ a₁.
      >>=-IsInside (read_field 1 a₁.1) _ (read_field-IsInside 1 a₁.1) λ a₂.
        >>=-IsInside (read_operation a₂.0 a₂.1) _ (read_operation-IsInside a₂.0 a₂.1) λ op.
          >>=-IsInside (read_field 4 a₂.1) _ (read_field-IsInside 4 a₂.1) λ a₃.
            >>=-IsInside (read_field 4 a₃.1) _ (read_field-IsInside 4 a₃.1) λ a₄.
              >>=-IsInside (require_payload (decode_from_le a₃.0) (decode_from_le a₄.0) a₄.1) _
                (require_payload-IsInside (decode_from_le a₃.0) (decode_from_le a₄.0) a₄.1)
                λ _.
                  >>=-IsInside (read_field (decode_from_le a₃.0) a₄.1) _
                    (read_field-IsInside (decode_from_le a₃.0) a₄.1)
                    λ a₅.
                      >>=-IsInside (read_field (decode_from_le a₄.0) a₅.1) _
                        (read_field-IsInside (decode_from_le a₄.0) a₅.1)
                        λ a₆. >>=-IsInside (read_field 4 a₆.1) _ (read_field-IsInside 4 a₆.1) λ a₇.
                          >>=-IsInside
                            (verify_checksum crc32
                              (a₁.0 ++ (a₂.0 ++ (a₃.0 ++ (a₄.0 ++ (a₅.0 ++ a₆.0))))) a₇.0 a₇.1)
                            _ (verify_checksum-IsInside crc32 _ a₇.0 a₇.1)
                            λ _.
                              >>=-IsInside (verify_sequence previous (decode_from_le a₁.0) a₇.1) _
                                (verify_sequence-IsInside previous (decode_from_le a₁.0) a₇.1)
                                λ _. tt

pub read_record-nil :
    (crc32 : Bytes → ℕ) (previous : Option ℕ) → read_record crc32 previous [] ≡ clean
unfolding read_record read_sequence
read_record-nil crc32 previous = refl

pub read_record-clean :
    (crc32 : Bytes → ℕ) (previous : Option ℕ) (xs : Bytes)
    → read_record crc32 previous xs ≡ clean
    → xs ≡ []
read_record-clean crc32 previous [] e = refl
read_record-clean crc32 previous (x ∷ xs) e =
    absurd (subst IsInside e (read_record-IsInside crc32 previous x xs))

pub read_record-bad :
    (crc32 : Bytes → ℕ) (previous : Option ℕ) (xs : Bytes) (e : WalError) (unread : Bytes)
    → read_record crc32 previous xs ≡ bad e unread
    → e ≢ out_of_fuel
read_record-bad crc32 previous [] e unread h = absurd (cc (h, read_record-nil crc32 previous))
read_record-bad crc32 previous (x ∷ xs) e unread h =
    subst IsInside h (read_record-IsInside crc32 previous x xs)
