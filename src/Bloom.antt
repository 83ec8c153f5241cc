-- ===== src/Bloom.antt =====
-- include/kronos/bloom_filter.hpp and src/bloom_filter.cpp. Third-party code is a parameter:
-- `murmur key seed` is the output of `MurmurHash3_x86_32` at the key and the seed, and
-- `round_probes n` is `std::round(n * 0.693)` in `double`. A byte is a number, and `|`, `&` and
-- `1 << i` on it are by its binary digits.
pub mod Membership
mod Examples
use kronos_engine.Prelude.{
  ℕ, zero, suc, ◌+◌, ◌*◌, ◌/◌, ◌%◌, ◌^◌, Bool, true, false, ◌||◌, Option, none, some, List, [], ◌∷◌,
  Bytes, length, ◌==◌, if◌then◌else◌,
}

pub record BloomFilter : Type 0 where
  pub bit_count : ℕ
  pub bits : Bytes
  pub probe_count : ℕ

-- 0xbc9f1d34
abbrev pub bloom_filter_seed : ℕ
bloom_filter_seed = 3164544308

-- `n` bytes of zeros.
unfoldable pub zeros : ℕ → Bytes
zeros zero = []
zeros (suc n) = 0 ∷ zeros n

-- `bloom_filter(bits_per_key, key_count)`, on `size_t`; none is `std::invalid_argument`.
unfoldable pub make : (ℕ → ℕ) → ℕ → ℕ → Option BloomFilter
make round_probes bits_per_key key_count =
    let bit_count = bits_per_key * key_count % 2 ^ 64 in
    let probe_count = round_probes bits_per_key in
    if key_count == 0 || bits_per_key == 0
    then none
    else some (record {
      bit_count = bit_count;
      bits = zeros ((bit_count + 7) % 2 ^ 64 / 8);
      probe_count = if probe_count == 0 then 1 else probe_count;
    })

abbrev is_empty : Bytes → Bool
is_empty [] = true
is_empty (b ∷ bs) = false

-- `bloom_filter(bit_count, probe_count, bits)`, from a file.
unfoldable pub restore : ℕ → ℕ → Bytes → Option BloomFilter
restore bit_count probe_count bits =
    if bit_count == 0 || (probe_count == 0 || is_empty bits)
    then none
    else some (record { bit_count = bit_count; bits = bits; probe_count = probe_count })

-- `byte | (1 << i)`
unfoldable pub set_bit : ℕ → ℕ → ℕ
set_bit zero byte = if byte % 2 == 1 then byte else byte + 1
set_bit (suc i) byte = byte % 2 + 2 * set_bit i (byte / 2)

-- `(byte & (1 << i)) != 0`
pub test_bit : ℕ → ℕ → Bool
test_bit zero byte = byte % 2 == 1
test_bit (suc i) byte = test_bit i (byte / 2)

-- `bits_[index]` read and written; past the end of the vector the C++ is undefined.
unfoldable pub set_at : ℕ → ℕ → Bytes → Bytes
set_at index offset [] = []
set_at zero offset (b ∷ bs) = set_bit offset b ∷ bs
set_at (suc index) offset (b ∷ bs) = b ∷ set_at index offset bs

pub test_at : ℕ → ℕ → Bytes → Bool
test_at index offset [] = false
test_at zero offset (b ∷ bs) = test_bit offset b
test_at (suc index) offset (b ∷ bs) = test_at index offset bs

-- `(h >> 17) | (h << 15)` on uint32_t: the two have no digit in common.
unfoldable pub delta_of : ℕ → ℕ
delta_of h = h / 2 ^ 17 + h * 2 ^ 15 % 2 ^ 32

-- The loop of `add`, with `probes` rounds to go.
unfoldable pub add_loop : ℕ → ℕ → ℕ → ℕ → Bytes → Bytes
add_loop zero delta bit_count h bits = bits
add_loop (suc probes) delta bit_count h bits =
    let position = h % bit_count in
    add_loop probes delta bit_count ((h + delta) % 2 ^ 32)
      (set_at (position / 8) (position % 8) bits)

unfoldable pub add : (Bytes → ℕ → ℕ) → Bytes → BloomFilter → BloomFilter
add murmur key f =
    let h = murmur key bloom_filter_seed % 2 ^ 32 in
    record f { bits = add_loop f.probe_count (delta_of h) f.bit_count h f.bits }

-- The loop of `mayContain`.
pub may_contain_loop : ℕ → ℕ → ℕ → ℕ → Bytes → Bool
may_contain_loop zero delta bit_count h bits = true
may_contain_loop (suc probes) delta bit_count h bits =
    let position = h % bit_count in
    if test_at (position / 8) (position % 8) bits
    then may_contain_loop probes delta bit_count ((h + delta) % 2 ^ 32) bits
    else false

pub may_contain : (Bytes → ℕ → ℕ) → Bytes → BloomFilter → Bool
may_contain murmur key f =
    let h = murmur key bloom_filter_seed % 2 ^ 32 in
    may_contain_loop f.probe_count (delta_of h) f.bit_count h f.bits
