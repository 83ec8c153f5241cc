-- ===== src/Codec/Examples.antt =====
-- The codec at 65538.
use kronos_engine.Prelude.{ℕ, ◌≡◌, Bytes, [], ◌∷◌, length, arith}
use kronos_engine.Codec.{encode_to_le, decode_from_le, decode-encode, encode-decode}

abbrev number : ℕ
number = 65538

decode-encode_example : decode_from_le (encode_to_le 4 number) ≡ number
decode-encode_example = decode-encode 4 number (omega arith)

abbrev read : Bytes
read = 2 ∷ 0 ∷ 1 ∷ []

encode-decode_example : encode_to_le (length read) (decode_from_le read) ≡ read
encode-decode_example = encode-decode read (ground arith)
