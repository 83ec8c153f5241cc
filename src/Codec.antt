-- ===== src/Codec.antt =====
-- `encode_to_le` and `decode_from_le` of src/sstable.cpp, and `appendBytes` of src/wal.cpp on a
-- little-endian host: unsigned integers as bytes, the least significant first.
mod Examples
use kronos_engine.Prelude.{
  ℕ, zero, suc, ◌+◌, ◌*◌, ◌/◌, ◌%◌, ◌^◌, ◌<◌, ◌≡◌, refl, ap, ap₂, ◌∙◌, [], ◌∷◌, Bytes, length, All,
  arith,
}
use native.Mathlib.Nat.{pow-suc}

abbrev pub IsByte : ℕ → Type 0
IsByte b = b < 256

-- `arr[i] = (value >> (8 * i)) & 0xFF` for each of `size` bytes: a shift by 8 is a division by 256.
unfoldable pub encode_to_le : ℕ → ℕ → Bytes
encode_to_le zero value = []
encode_to_le (suc size) value = (value % 256) ∷ encode_to_le size (value / 256)

-- `value |= arr[i] << (8 * i)`: the bits are disjoint, so the disjunction is a sum.
unfoldable pub decode_from_le : Bytes → ℕ
decode_from_le [] = 0
decode_from_le (b ∷ bs) = b + 256 * decode_from_le bs

pub length-encode_to_le : (size value : ℕ) → length (encode_to_le size value) ≡ size
unfolding encode_to_le
length-encode_to_le zero value = refl
length-encode_to_le (suc size) value = ap suc (length-encode_to_le size (value / 256))

pub encode_to_le-IsByte : (size value : ℕ) → All IsByte (encode_to_le size value)
unfolding encode_to_le
encode_to_le-IsByte zero value = tt
encode_to_le-IsByte (suc size) value = (omega arith, encode_to_le-IsByte size (value / 256))

-- An integer of `size` bytes reads back as it was written.
pub decode-encode :
    (size value : ℕ) → value < 256 ^ size → decode_from_le (encode_to_le size value) ≡ value
unfolding encode_to_le decode_from_le
decode-encode zero value h = omega arith
decode-encode (suc size) value h = omega (arith, decode-encode size (value / 256) (omega arith))

pub decode-lt : (bs : Bytes) → All IsByte bs → decode_from_le bs < 256 ^ length bs
unfolding decode_from_le
decode-lt [] h = omega arith
decode-lt (b ∷ bs) h = omega (arith, decode-lt bs h.1, h.0, pow-suc 256 (length bs))

low_byte : (b n : ℕ) → b < 256 → (b + 256 * n) % 256 ≡ b
low_byte b n h = omega arith

high_bytes : (b n : ℕ) → b < 256 → (b + 256 * n) / 256 ≡ n
high_bytes b n h = omega arith

-- And bytes that were read are what their integer is written as.
pub encode-decode : (bs : Bytes) → All IsByte bs → encode_to_le (length bs) (decode_from_le bs) ≡ bs
unfolding encode_to_le decode_from_le
encode-decode [] h = refl
encode-decode (b ∷ bs) h =
    ap₂ ◌∷◌ (low_byte b _ h.0)
      (ap (encode_to_le (length bs)) (high_bytes b _ h.0) ∙ encode-decode bs h.1)
