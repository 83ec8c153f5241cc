-- ===== src/Wal/Repeated.antt =====
-- A sequence number that stands twice in the log: `writeRecord` advances the number only after
-- `fsync` (src/wal.cpp), so the record after a failed `fsync` takes the same one.
use kronos_engine.Prelude.{
  ℕ, zero, suc, ◌+◌, ◌-◌, ◌^◌, ◌<◌, ◌≤◌, ◌≡◌, refl, ap, ◌∙◌, sym, Option, none, some, Result, ok,
  err, List, [], ◌∷◌, ◌++◌, Bytes, All, length, length-append, append_assoc, drop, Bool-cases, ltb,
  ◌==◌, ◌||◌, inl, inr, ◌⊎◌, append-nil, All-append, arith,
}
use kronos_engine.Wal.Format.{
  RecoveredRecord, header, serialize, serialize_all, serialize_all-append, Fits, Ascends,
}
use kronos_engine.Types.{OperationType}
use kronos_engine.Io.{WriteReturn, FsyncReturn}
use kronos_engine.Wal.Scan.{WalError, fsync_failed, sequence_exhausted, too_large, non_increasing}
use kronos_engine.Wal.Reclaim.{write_loop-done}
use kronos_engine.Wal.Record.{read_record-non_increasing}
use kronos_engine.Wal.Log.{
  Wal, failed, prepend, recover_loop, settle, recover, append_record, after_io, overwrite,
  write_record,
}
use kronos_engine.Wal.Append.{IsLog, asked, asked-Fits, overwrite-end, Ascends-append}
use kronos_engine.Wal.Replay.{recover_loop-record, length-le-serialize_all}

module _ (crc32 : Bytes → ℕ) (q r : RecoveredRecord) (rest : Bytes) (f : Fits r)
    (again : r.sequence ≤ q.sequence) where
  stops :
      (fuel next : ℕ)
      → recover_loop crc32 (suc fuel) (some q.sequence) next (serialize crc32 r ++ rest)
        ≡ failed non_increasing next rest
  unfolding recover_loop
  stops fuel next =
      rw (read_record-non_increasing crc32 r f q.sequence rest again, recover_loop) refl

  recover_loop-repeated :
      (rs : List RecoveredRecord) (fuel : ℕ) (previous : Option ℕ) (next : ℕ)
      → All Fits (rs ++ q ∷ [])
      → Ascends previous (rs ++ q ∷ [])
      → length rs + 1 < fuel
      → recover_loop crc32 fuel previous next
          (serialize_all crc32 (rs ++ q ∷ []) ++ (serialize crc32 r ++ rest))
        ≡ failed non_increasing (q.sequence + 1) rest
  unfolding serialize_all
  recover_loop-repeated rs zero previous next fits a h = absurd (omega arith)
  recover_loop-repeated rs (suc zero) previous next fits a h = absurd (omega arith)
  recover_loop-repeated [] (suc (suc fuel)) previous next fits a h =
      ap (recover_loop crc32 (suc (suc fuel)) previous next)
        (append_assoc (serialize crc32 q) [] (serialize crc32 r ++ rest))
      ∙ recover_loop-record crc32 (suc fuel) previous next q (serialize crc32 r ++ rest) fits.0 a.0
      ∙ ap (prepend q) (stops fuel (q.sequence + 1))
  recover_loop-repeated (p ∷ rs) (suc (suc fuel)) previous next fits a h =
      ap (recover_loop crc32 (suc (suc fuel)) previous next) (
        append_assoc (serialize crc32 p) (serialize_all crc32 (rs ++ q ∷ []))
          (serialize crc32 r ++ rest))
      ∙ recover_loop-record crc32 (suc fuel) previous next p
          (serialize_all crc32 (rs ++ q ∷ []) ++ (serialize crc32 r ++ rest)) fits.0 a.0
      ∙ ap (prepend p) (
          recover_loop-repeated rs (suc fuel) (some p.sequence) (p.sequence + 1) fits.1 a.1
            (omega arith))

  recover-repeated :
      (w : Wal) (rs : List RecoveredRecord)
      → w.file ≡ header ++ (serialize_all crc32 (rs ++ q ∷ []) ++ (serialize crc32 r ++ rest))
      → All Fits (rs ++ q ∷ [])
      → Ascends none (rs ++ q ∷ [])
      → (recover crc32 w).1 ≡ err non_increasing
  unfolding recover
  recover-repeated w rs e fits a =
      let scan =
        ap (recover_loop crc32 (suc (length w.file)) none w.next_sequence)
          (ap (drop (length header)) e)
        ∙ recover_loop-repeated rs (suc (length w.file)) none w.next_sequence fits a (
            omega (
              arith,
              ap length e,
              length-append (serialize_all crc32 (rs ++ q ∷ [])) (serialize crc32 r ++ rest),
              length-le-serialize_all crc32 (rs ++ q ∷ []),
              length-append rs (q ∷ []),
            )) in
      ap (λ s. (settle w s).1) scan

-- The bytes of an append that failed in `fsync` are in the file, and the next number is the same.
append_record-unsynced :
    (w : Wal) (bytes : Bytes) (writes : List WriteReturn) (syncs : List FsyncReturn)
    → (append_record w bytes writes syncs).1 ≡ err fsync_failed
    → ((append_record w bytes writes syncs).0.file ≡ overwrite w.file w.position bytes)
      × ((append_record w bytes writes syncs).0.position ≡ w.position + length bytes)
      × ((append_record w bytes writes syncs).0.next_sequence ≡ w.next_sequence)
unfolding append_record after_io
append_record-unsynced w bytes writes syncs h = ground (arith, write_loop-done bytes writes)

append_record-ok :
    (w : Wal) (bytes : Bytes) (writes : List WriteReturn) (syncs : List FsyncReturn) (n : ℕ)
    → (append_record w bytes writes syncs).1 ≡ ok n
    → ((append_record w bytes writes syncs).0.file ≡ overwrite w.file w.position bytes)
      × (n ≡ w.next_sequence)
unfolding append_record after_io
append_record-ok w bytes writes syncs n h = ground (arith, write_loop-done bytes writes)

-- An append that was not refused.
pub record Passed (crc32 : Bytes → ℕ) (w : Wal) (operation : OperationType) (key val : Bytes)
    (out : List WriteReturn → List FsyncReturn → Wal × Result WalError ℕ) : Type 0 where
  pub fits : Fits (asked w operation key val)
  pub appends :
      (writes : List WriteReturn) (syncs : List FsyncReturn)
      → out writes syncs
        ≡ append_record w (serialize crc32 (asked w operation key val)) writes syncs

write_record-Passed :
    (crc32 : Bytes → ℕ) (w : Wal) (operation : OperationType) (key val : Bytes)
    → w.next_sequence < 2 ^ 64
    → Passed crc32 w operation key val (write_record crc32 w operation key val)
      ⊎ ((writes : List WriteReturn) (syncs : List FsyncReturn)
          → (write_record crc32 w operation key val writes syncs).1 ≡ err sequence_exhausted
            ⊎ (write_record crc32 w operation key val writes syncs).1 ≡ err too_large)
unfolding write_record
write_record-Passed crc32 w operation key val fits =
    elim (Bool-cases (w.next_sequence == 2 ^ 64 - 1)) [
      | inl last ↦ inr (λ writes syncs. inl (rw (last, write_record) refl))
      | inr more ↦
          elim (Bool-cases (ltb (2 ^ 32 - 1) (length key) || ltb (2 ^ 32 - 1) (length val))) [
            | inl large ↦ inr (λ writes syncs. inr (rw (more, large, write_record) refl))
            | inr small ↦ inl (record {
              fits = asked-Fits w operation key val fits more small;
              appends = λ writes syncs. rw (more, small, write_record) refl;
            })
          ]
    ]

module _ (crc32 : Bytes → ℕ) (w : Wal) (operation : OperationType) (key val : Bytes)
    (writes : List WriteReturn) (syncs : List FsyncReturn) (small : w.next_sequence < 2 ^ 64)
    (at_end : w.position ≡ length w.file) where
  abbrev out : Wal × Result WalError ℕ
  out = write_record crc32 w operation key val writes syncs

  abbrev r : RecoveredRecord
  r = asked w operation key val

  write_record-unsynced :
      out.1 ≡ err fsync_failed
      → Fits r
        × (out.0.file ≡ w.file ++ serialize crc32 r)
        × (out.0.position ≡ length out.0.file)
        × (out.0.next_sequence ≡ w.next_sequence)
  write_record-unsynced h = elim (write_record-Passed crc32 w operation key val small) [
    | inr refused ↦ elim (refused writes syncs) [
      | inl e ↦ absurd (cc (e, h))
      | inr e ↦ absurd (cc (e, h))
    ]
    | inl p ↦
        let e = p.appends writes syncs in
        let (file, position, next) =
          append_record-unsynced w (serialize crc32 r) writes syncs (ap (λ o. o.1) (sym e) ∙ h) in
        let content : out.0.file ≡ w.file ++ serialize crc32 r =
          ap (λ o. o.0.file) e
          ∙ file
          ∙ overwrite-end w.file w.position (serialize crc32 r) at_end in
        (
          p.fits,
          content,
          omega (
            arith,
            ap (λ o. o.0.position) e ∙ position,
            at_end,
            ap length content,
            length-append w.file (serialize crc32 r),
          ),
          ap (λ o. o.0.next_sequence) e ∙ next,
        )
  ]

  write_record-ok :
      (n : ℕ)
      → out.1 ≡ ok n
      → Fits r × (out.0.file ≡ w.file ++ serialize crc32 r) × (n ≡ w.next_sequence)
  write_record-ok n h = elim (write_record-Passed crc32 w operation key val small) [
    | inr refused ↦ elim (refused writes syncs) [
      | inl e ↦ absurd (cc (e, h))
      | inr e ↦ absurd (cc (e, h))
    ]
    | inl p ↦
        let e = p.appends writes syncs in
        let (file, same) =
          append_record-ok w (serialize crc32 r) writes syncs n (ap (λ o. o.1) (sym e) ∙ h) in
        (
          p.fits,
          ap (λ o. o.0.file) e ∙ file ∙ overwrite-end w.file w.position (serialize crc32 r) at_end,
          same,
        )
  ]

two_records :
    (crc32 : Bytes → ℕ) (rs : List RecoveredRecord) (q r : RecoveredRecord)
    → ((header ++ serialize_all crc32 rs) ++ serialize crc32 q) ++ serialize crc32 r
      ≡ header ++ (serialize_all crc32 (rs ++ q ∷ []) ++ (serialize crc32 r ++ []))
unfolding serialize_all
two_records crc32 rs q r = simp (append_assoc, append-nil, serialize_all-append crc32 rs (q ∷ []))

-- Where an append fails in `fsync` and the next append returns, both records carry the same number,
-- and recovery of the log throws on it.
pub write_record-reuses_sequence :
    (crc32 : Bytes → ℕ) (w : Wal) (rs : List RecoveredRecord) (operation operation' : OperationType)
    (key val key' val' : Bytes) (writes writes' : List WriteReturn)
    (syncs syncs' : List FsyncReturn) (n : ℕ)
    → IsLog crc32 w rs
    → let (w₁, failed_result) = write_record crc32 w operation key val writes syncs in
      let (w₂, result) = write_record crc32 w₁ operation' key' val' writes' syncs' in
      failed_result ≡ err fsync_failed
      → result ≡ ok n
      → (n ≡ w.next_sequence) × ((recover crc32 w₂).1 ≡ err non_increasing)
write_record-reuses_sequence crc32 w rs operation operation' key val key' val' writes writes' syncs
      syncs' n l h k =
    let w₁ = (write_record crc32 w operation key val writes syncs).0 in
    let (fits, content, at_end, next) =
      write_record-unsynced crc32 w operation key val writes syncs l.next_fits l.at_end h in
    let (fits', content', same) =
      write_record-ok crc32 w₁ operation' key' val' writes' syncs'
        (omega (arith, next, l.next_fits)) at_end n k in
    let q = asked w operation key val in
    let r = asked w₁ operation' key' val' in
    (
      same ∙ next,
      recover-repeated crc32 q r [] fits' (omega (arith, next)) _ rs
          (content'
            ∙ ap (λ f. f ++ serialize crc32 r)
                (content ∙ ap (λ f. f ++ serialize crc32 q) l.content)
            ∙ two_records crc32 rs q r)
          (All-append Fits rs (q ∷ []) l.fitting (fits, tt))
          (Ascends-append none rs q l.ascending tt l.below),
    )
