-- ===== src/Wal/Replay.antt =====
-- Recovery reads back what was logged, and cuts off an incomplete last record.
use kronos_engine.Prelude.{
  ℕ, zero, suc, ◌+◌, ◌-◌, ◌<◌, ◌≤◌, ◌≡◌, ◌⊎◌, inl, inr, refl, ap, ◌∙◌, sym, Option, none, some,
  Result, ok, List, [], ◌∷◌, ◌++◌, Bytes, All, length, length-append, append_assoc, take, drop,
  take-length_append, arith,
}
use kronos_engine.Wal.Format.{
  RecoveredRecord, header, serialize, serialize_all, length-serialize, Fits, Follows, Ascends,
}
use kronos_engine.Wal.Scan.{clean, torn, read_record, WalError}
use kronos_engine.Wal.Record.{read_record-serialize}
use kronos_engine.Wal.Log.{Wal, finished, prepend, recover_loop, settle, recover}

-- The number after the last record, or the one at hand.
abbrev pub next_after : ℕ → List RecoveredRecord → ℕ
next_after next [] = next
next_after next (r ∷ rs) = next_after (r.sequence + 1) rs

-- Bytes that a stopped write left behind: nothing, or an incomplete record.
abbrev pub IsTail : (Bytes → ℕ) → Bytes → Type 0
IsTail crc32 tail =
    (previous : Option ℕ)
    → ((tail ≡ []) × (read_record crc32 previous tail ≡ clean))
      ⊎ (read_record crc32 previous tail ≡ torn)

module _ (crc32 : Bytes → ℕ) where
  recover_loop-tail :
      (fuel : ℕ) (previous : Option ℕ) (next : ℕ) (tail : Bytes)
      → IsTail crc32 tail
      → recover_loop crc32 (suc fuel) previous next tail ≡ finished [] next tail
  unfolding recover_loop
  recover_loop-tail fuel previous next tail t = elim (t previous) [
    | inl (nothing, e) ↦ rw (e, recover_loop) (ap (finished [] next) (sym nothing))
    | inr e ↦ rw (e, recover_loop) refl
  ]

  -- One round on a record that was written.
  pub recover_loop-record :
      (fuel : ℕ) (previous : Option ℕ) (next : ℕ) (r : RecoveredRecord) (rest : Bytes)
      → Fits r
      → Follows previous r.sequence
      → recover_loop crc32 (suc fuel) previous next (serialize crc32 r ++ rest)
        ≡ prepend r (recover_loop crc32 fuel (some r.sequence) (r.sequence + 1) rest)
  unfolding recover_loop
  recover_loop-record fuel previous next r rest f h =
      rw (read_record-serialize crc32 r f previous rest h, recover_loop) refl

  pub recover_loop-serialize_all :
      (rs : List RecoveredRecord) (fuel : ℕ) (previous : Option ℕ) (next : ℕ) (tail : Bytes)
      → All Fits rs
      → Ascends previous rs
      → IsTail crc32 tail
      → length rs < fuel
      → recover_loop crc32 fuel previous next (serialize_all crc32 rs ++ tail)
        ≡ finished rs (next_after next rs) tail
  unfolding serialize_all
  recover_loop-serialize_all rs zero previous next tail f a t h = absurd (omega arith)
  recover_loop-serialize_all [] (suc fuel) previous next tail f a t h =
      recover_loop-tail fuel previous next tail t
  recover_loop-serialize_all (r ∷ rs) (suc fuel) previous next tail f a t h =
      ap (recover_loop crc32 (suc fuel) previous next)
        (append_assoc (serialize crc32 r) (serialize_all crc32 rs) tail)
      ∙ recover_loop-record fuel previous next r (serialize_all crc32 rs ++ tail) f.0 a.0
      ∙ ap (prepend r) (
          recover_loop-serialize_all rs fuel (some r.sequence) (r.sequence + 1) tail f.1 a.1 t
            (omega arith))

  pub length-le-serialize_all :
      (rs : List RecoveredRecord) → length rs ≤ length (serialize_all crc32 rs)
  unfolding serialize_all
  length-le-serialize_all [] = omega arith
  length-le-serialize_all (r ∷ rs) = omega (
    arith,
    length-append (serialize crc32 r) (serialize_all crc32 rs),
    length-serialize crc32 r,
    length-le-serialize_all rs,
  )

  -- A log of whole records, and what is left of a torn one behind them.
  abbrev log_bytes : List RecoveredRecord → Bytes
  log_bytes rs = header ++ serialize_all crc32 rs

  pub take-log :
      (rs : List RecoveredRecord) (tail : Bytes)
      → take (length (log_bytes rs ++ tail) - length tail) (log_bytes rs ++ tail) ≡ log_bytes rs
  take-log rs tail =
      let cut : length (log_bytes rs ++ tail) - length tail ≡ length (log_bytes rs) =
        omega (arith, length-append (log_bytes rs) tail) in
      ap (λ (n : ℕ). take n (log_bytes rs ++ tail)) cut ∙ take-length_append (log_bytes rs) tail

  enough_fuel :
      (w : Wal) (rs : List RecoveredRecord) (tail : Bytes)
      → w.file ≡ log_bytes rs ++ tail
      → length rs < suc (length w.file)
  enough_fuel w rs tail e =
      omega (
        arith,
        ap length e,
        length-append (serialize_all crc32 rs) tail,
        length-le-serialize_all rs,
      )

  abbrev settled :
      Wal → ℕ → List RecoveredRecord → Bytes → Wal × Result WalError (List RecoveredRecord)
  settled w next rs file =
      (record w { file = file; position = length file; next_sequence = next }, ok rs)

  -- Recovery returns the records of the log in order and leaves a file of exactly those records: a
  -- torn last record is cut off. The descriptor is at the end, and the next number follows the last.
  pub recover-log :
      (w : Wal) (rs : List RecoveredRecord) (tail : Bytes)
      → w.file ≡ (header ++ serialize_all crc32 rs) ++ tail
      → All Fits rs
      → Ascends none rs
      → IsTail crc32 tail
      → recover crc32 w ≡ (
        record w {
          file = header ++ serialize_all crc32 rs;
          position = length (header ++ serialize_all crc32 rs);
          next_sequence = next_after w.next_sequence rs;
        },
        ok rs,
      )
  unfolding recover
  recover-log w rs tail e f a t =
      ap (settle w) (
        ap (recover_loop crc32 (suc (length w.file)) none w.next_sequence)
          (ap (drop (length header)) e)
        ∙ recover_loop-serialize_all rs (suc (length w.file)) none w.next_sequence tail f a t
            (enough_fuel w rs tail e))
      ∙ ap (settled w (next_after w.next_sequence rs) rs)
          (ap (λ (file : Bytes). take (length file - length tail) file) e ∙ take-log rs tail)
