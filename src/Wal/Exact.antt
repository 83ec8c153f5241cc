-- ===== src/Wal/Exact.antt =====
-- Recovery of any file: it ends, and what it accepts is exactly what the file then holds.
use kronos_engine.Prelude.{
  ℕ, zero, suc, ◌+◌, ◌-◌, ◌<◌, ◌≡◌, ◌≢◌, refl, ap, ◌∙◌, sym, subst, Option, none, some, ok, err,
  List, ◌++◌, Bytes, All, All-split, length, length-append, append_assoc, take, drop, arith,
}
use kronos_engine.Codec.{IsByte}
use kronos_engine.Wal.Format.{
  RecoveredRecord, header, serialize, serialize_all, length-serialize, Fits, Follows, Ascends,
}
use kronos_engine.Wal.Scan.{Parse, value, clean, torn, bad, read_record, out_of_fuel}
use kronos_engine.Wal.Sound.{read_record_sound}
use kronos_engine.Wal.Ends.{read_record-clean, read_record-bad}
use kronos_engine.Wal.Replay.{take-log}
use kronos_engine.Wal.Log.{Wal, Scanned, finished, failed, prepend, recover_loop, settle, recover}

module _ (crc32 : Bytes → ℕ) where
  -- What a scan of `rest` from `previous` on may end with.
  IsExact : Option ℕ → Bytes → Scanned → Type 0
  IsExact previous rest (finished rs next tail) =
      (rest ≡ serialize_all crc32 rs ++ tail) × All Fits rs × Ascends previous rs
  IsExact previous rest (failed e next unread) = e ≢ out_of_fuel

  prepend-IsExact :
      (previous : Option ℕ) (r : RecoveredRecord) (rest left : Bytes) (s : Scanned)
      → rest ≡ serialize crc32 r ++ left
      → Fits r
      → Follows previous r.sequence
      → IsExact (some r.sequence) left s
      → IsExact previous rest (prepend r s)
  unfolding IsExact serialize_all
  prepend-IsExact previous r rest left (finished rs next tail) e f h (cut, fits, ascends) = (
    e ∙ ap (◌++◌ (serialize crc32 r)) cut ∙ sym (append_assoc (serialize crc32 r) _ tail),
    (f, fits),
    (h, ascends),
  )
  prepend-IsExact previous r rest left (failed e' next unread) e f h s = s

  recover_loop-IsExact :
      (fuel : ℕ) (previous : Option ℕ) (next : ℕ) (rest : Bytes)
      → All IsByte rest
      → length rest < fuel
      → IsExact previous rest (recover_loop crc32 fuel previous next rest)
  unfolding recover_loop
  recover_loop-IsExact zero previous next rest b h = absurd (omega arith)
  recover_loop-IsExact (suc fuel) previous next rest b h =
      go (read_record crc32 previous rest) refl (recover_loop-IsExact fuel)
    where
      go :
          (p : Parse (RecoveredRecord × Bytes))
          → read_record crc32 previous rest ≡ p
          → ((previous' : Option ℕ) (next' : ℕ) (rest' : Bytes)
              → All IsByte rest'
              → length rest' < fuel
              → IsExact previous' rest' (recover_loop crc32 fuel previous' next' rest'))
          → IsExact previous rest (recover_loop crc32 (suc fuel) previous next rest)
      go (value (r, left)) e ih =
          let (cut, f, follows) = read_record_sound crc32 previous rest r left b e in
          rw (e, recover_loop)
            (prepend-IsExact previous r rest left
              (recover_loop crc32 fuel (some r.sequence) (r.sequence + 1) left) cut f follows
              (ih (some r.sequence) (r.sequence + 1) left
                (All-split IsByte (serialize crc32 r) left (subst (All IsByte) cut b)).1
                (omega (
                  arith,
                  ap length cut,
                  length-append (serialize crc32 r) left,
                  length-serialize crc32 r,
                ))))
      go clean e ih =
          rw (e, recover_loop)
            (unfold IsExact serialize_all in (read_record-clean crc32 previous rest e, tt, tt))
      go torn e ih = rw (e, recover_loop) (unfold IsExact serialize_all in (refl, tt, tt))
      go (bad x unread) e ih =
          rw (e, recover_loop) (unfold IsExact in read_record-bad crc32 previous rest x unread e)

  -- `w'` is `w` after a recovery to these records: the file is the header and the records, and what
  -- was cut off stood behind them.
  pub record RecoveredTo (w w' : Wal) (rs : List RecoveredRecord) : Type 0 where
    pub content : w'.file ≡ header ++ serialize_all crc32 rs
    pub tail : Bytes
    pub cut : w.file ≡ w'.file ++ tail
    pub fitting : All Fits rs
    pub ascending : Ascends none rs
    pub at_end : w'.position ≡ length w'.file

  settle-finished :
      (w : Wal) (rest tail : Bytes) (rs : List RecoveredRecord) (next : ℕ)
      → w.file ≡ header ++ rest
      → IsExact none rest (finished rs next tail)
      → RecoveredTo w (settle w (finished rs next tail)).0 rs
  unfolding IsExact
  settle-finished w rest tail rs next h (cut, fits, ascends) =
      let whole : w.file ≡ (header ++ serialize_all crc32 rs) ++ tail = h ∙ ap (◌++◌ header) cut in
      let kept : take (length w.file - length tail) w.file ≡ header ++ serialize_all crc32 rs =
        ap (λ (f : Bytes). take (length f - length tail) f) whole ∙ take-log crc32 rs tail in
      record {
        content = kept;
        tail = tail;
        cut = whole ∙ sym (ap (λ (f : Bytes). f ++ tail) kept);
        fitting = fits;
        ascending = ascends;
        at_end = refl;
      }

  settle-exact :
      (w : Wal) (rest : Bytes) (s : Scanned)
      → w.file ≡ header ++ rest
      → IsExact none rest s
      → ((settle w s).1 ≢ err out_of_fuel)
        × ((rs : List RecoveredRecord) → (settle w s).1 ≡ ok rs → RecoveredTo w (settle w s).0 rs)
  settle-exact w rest (failed e next unread) h s =
      unfold IsExact in (λ k. s (cc k), λ rs k. absurd (cc k))
  settle-exact w rest (finished qs next tail) h s =
      (λ k. cc k, λ rs k. subst (RecoveredTo w _) (cc k) (settle-finished w rest tail qs next h s))

  -- Recovery of any file that begins with the header ends, by a list of records or by an exception
  -- of the source. If it returns records, then the file holds exactly their serialization, cut out
  -- of the front of what it held, the records keep the limits of `writeRecord` and their numbers
  -- ascend, and the descriptor is at the end.
  pub recover-exact :
      (w : Wal) (rest : Bytes)
      → w.file ≡ header ++ rest
      → All IsByte rest
      → ((recover crc32 w).1 ≢ err out_of_fuel)
        × ((rs : List RecoveredRecord)
            → (recover crc32 w).1 ≡ ok rs
            → RecoveredTo w (recover crc32 w).0 rs)
  unfolding recover
  recover-exact w rest h b = settle-exact w rest _ h (
      subst
        (λ r. IsExact none rest (recover_loop crc32 (suc (length w.file)) none w.next_sequence r))
        (ap (drop (length header)) (sym h))
        (recover_loop-IsExact (suc (length w.file)) none w.next_sequence rest b
          (omega (arith, ap length h))))
