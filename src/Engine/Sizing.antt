-- ===== src/Engine/Sizing.antt =====
-- `memtableBytesFromConfig` (src/engine.cpp).
use native.Mathlib.Decide.{dec_le}
use kronos_engine.Prelude.{
  ℕ, zero, suc, inl, inr, refl, ◌*◌, ◌^◌, ◌<◌, ◌≤◌, ◌≡◌, ◌⊎◌, ok, err, arith,
}
use kronos_engine.Engine.{memtable_bytes_from_config, invalid_memtable_size}

-- For the word of any 32-bit integer: a positive number of megabytes gives exactly its bytes, with no
-- wrap-around and no overflow error, and zero or a negative number is refused.
pub memtable_bytes_from_config_bounds :
    (configured_mb : ℕ)
    → configured_mb < 2 ^ 32
    → ((0 < configured_mb)
        × (configured_mb < 2 ^ 31)
        × (memtable_bytes_from_config configured_mb ≡ ok (configured_mb * 2 ^ 20)))
      ⊎ (((configured_mb ≡ 0) ⊎ (2 ^ 31 ≤ configured_mb))
          × (memtable_bytes_from_config configured_mb ≡ err invalid_memtable_size))
unfolding memtable_bytes_from_config
memtable_bytes_from_config_bounds zero h = inr (inl refl, ground arith)
memtable_bytes_from_config_bounds (suc n) h = elim (dec_le (2 ^ 31) (suc n)) [
  | yes negative ↦ inr (inr negative, ground arith)
  | no positive ↦ inl (omega arith, omega arith, ground arith)
]
