-- ===== src/Wal/Reclaim.antt =====
-- Reclamation: the log is replaced by one without the records up to a checkpoint, or stays.
use kronos_engine.Prelude.{
  ℕ, ◌+◌, ◌<◌, ◌≤◌, ◌≡◌, ◌⊎◌, inl, inr, refl, ap, ◌∙◌, sym, subst, Option, none, some, Result, ok,
  err, List, [], ◌∷◌, ◌++◌, Bytes, All, Bool, true, false, Bool-cases, Option-cases, length,
  append-nil, leb, if◌then◌else◌, arith,
}
use kronos_engine.Io.{WriteReturn, FsyncReturn, done, write_loop, fsync_loop, write_loop-front}
use kronos_engine.Wal.Format.{
  RecoveredRecord, magic, version, header, serialize, serialize_all, Fits, Follows, Ascends,
}
use kronos_engine.Wal.Scan.{WalError, write_failed, fsync_failed}
use kronos_engine.Wal.Log.{
  Wal, after_io, write_both, rewrite, Rewritten, rewrite_file, replace_file, reclaim_through,
  Replacement, refused, installed, detached, recover, ensure_next_sequence_at_least,
}
use kronos_engine.Wal.Replay.{recover-log, next_after}
use kronos_engine.Wal.Append.{IsLog, IsTail-nil, after_io-cases, recover-IsLog}

-- The records past the checkpoint.
abbrev pub newer_than : ℕ → List RecoveredRecord → List RecoveredRecord
newer_than checkpoint [] = []
newer_than checkpoint (r ∷ rs) =
    if leb r.sequence checkpoint then newer_than checkpoint rs else r ∷ newer_than checkpoint rs

pub write_loop-done :
    (bytes : Bytes) (returns : List WriteReturn)
    → (write_loop bytes returns).outcome ≡ done
    → (write_loop bytes returns).bytes ≡ bytes
write_loop-done bytes returns h =
    let (rest, cut, whole) = write_loop-front bytes returns in
    sym (cut ∙ ap (◌++◌ (write_loop bytes returns).bytes) (whole.0 h) ∙ append-nil _)

write_both-done :
    (first second : Bytes) (returns : List WriteReturn)
    → (write_both first second returns).outcome ≡ done
    → (write_both first second returns).bytes ≡ first ++ second
unfolding write_both
write_both-done first second returns h =
    ground (
      arith,
      write_loop-done first returns,
      write_loop-done second (write_loop first returns).later,
    )

module _ (crc32 : Bytes → ℕ) (checkpoint : ℕ) where
  rewrite-whole :
      (rs : List RecoveredRecord) (returns : List WriteReturn)
      → (rewrite crc32 checkpoint rs returns).thrown ≡ none
      → (rewrite crc32 checkpoint rs returns).bytes ≡ serialize_all crc32 (newer_than checkpoint rs)
  unfolding rewrite serialize_all
  rewrite-whole [] returns h = refl
  rewrite-whole (r ∷ rs) returns h = ground (
    arith,
    rewrite-whole rs returns,
    rewrite-whole rs (write_loop (serialize crc32 r) returns).later,
    write_loop-done (serialize crc32 r) returns,
  )

  rewrite_file-whole :
      (rs : List RecoveredRecord) (returns : List WriteReturn)
      → (rewrite_file crc32 checkpoint rs returns).thrown ≡ none
      → (rewrite_file crc32 checkpoint rs returns).bytes
        ≡ header ++ serialize_all crc32 (newer_than checkpoint rs)
  unfolding rewrite_file
  rewrite_file-whole rs returns h = ground (
    arith,
    write_both-done magic (version ∷ []) returns,
    rewrite-whole rs (write_both magic (version ∷ []) returns).later,
  )

newer_than-All {κ} :
    (P : RecoveredRecord → Type κ) (checkpoint : ℕ) (rs : List RecoveredRecord)
    → All P rs
    → All P (newer_than checkpoint rs)
newer_than-All P checkpoint [] h = tt
newer_than-All P checkpoint (r ∷ rs) h = elim (Bool-cases (leb r.sequence checkpoint)) [
  | inl old ↦ rw old (newer_than-All P checkpoint rs h.1)
  | inr new ↦ rw new (h.0, newer_than-All P checkpoint rs h.1)
]

Follows-weaken : (previous : Option ℕ) (n m : ℕ) → Follows previous n → n < m → Follows previous m
Follows-weaken none n m f h = tt
Follows-weaken (some p) n m f h = omega arith

Ascends-weaken :
    (previous : Option ℕ) (n : ℕ) (rs : List RecoveredRecord)
    → Follows previous n
    → Ascends (some n) rs
    → Ascends previous rs
Ascends-weaken previous n [] f a = tt
Ascends-weaken previous n (r ∷ rs) f a = (Follows-weaken previous n r.sequence f a.0, a.1)

newer_than-Ascends :
    (checkpoint : ℕ) (previous : Option ℕ) (rs : List RecoveredRecord)
    → Ascends previous rs
    → Ascends previous (newer_than checkpoint rs)
newer_than-Ascends checkpoint previous [] a = tt
newer_than-Ascends checkpoint previous (r ∷ rs) a = elim (Bool-cases (leb r.sequence checkpoint)) [
  | inl old ↦ rw old (
      Ascends-weaken previous r.sequence (newer_than checkpoint rs) a.0
        (newer_than-Ascends checkpoint (some r.sequence) rs a.1))
  | inr new ↦ rw new (a.0, newer_than-Ascends checkpoint (some r.sequence) rs a.1)
]

next_after-le :
    (next n : ℕ) (rs : List RecoveredRecord)
    → n ≤ next
    → All (λ r. r.sequence < next) rs
    → next_after n rs ≤ next
next_after-le next n [] h b = h
next_after-le next n (r ∷ rs) h b = next_after-le next (r.sequence + 1) rs (omega (arith, b.0)) b.1

-- A recovery with the guard behind it leaves a whole log as it was.
recover-unchanged :
    (crc32 : Bytes → ℕ) (w : Wal) (rs : List RecoveredRecord)
    → IsLog crc32 w rs
    → ensure_next_sequence_at_least w.next_sequence (recover crc32 w).0 ≡ w
unfolding ensure_next_sequence_at_least
recover-unchanged crc32 w rs l =
    rw
      (recover-log crc32 w rs [] (l.content ∙ sym (append-nil _)) l.fitting l.ascending
        (IsTail-nil crc32))
      (ground (
        arith,
        l.content,
        l.at_end,
        next_after-le w.next_sequence w.next_sequence rs (omega arith) l.below,
      ))

-- How an attempt to put the temporary file in the log's place may end.
data Replaced (w : Wal) (bytes : Bytes)
    : Wal × Result WalError (Unit {0}) → Replacement → Type 0 where
  kept : (e : WalError) (r : Replacement) → Replaced w bytes (w, err e) r
  replaced :
      (result : Result WalError (Unit {0}))
      → Replaced w bytes
          (record w { file = bytes; position = length bytes; linked = true }, result)
          installed
  unlinked : (e : WalError) → Replaced w bytes (record w { linked = false }, err e) detached

replace_file-Replaced :
    (w : Wal) (temporary : Rewritten) (syncs : List FsyncReturn) (r : Replacement)
    (parent_synced : Bool) (bytes : Bytes)
    → (temporary.thrown ≡ none → temporary.bytes ≡ bytes)
    → Replaced w bytes (replace_file w temporary syncs r parent_synced) r
unfolding replace_file
replace_file-Replaced w temporary syncs r parent_synced bytes whole =
    elim (Option-cases temporary.thrown) [
      | inr (e, h) ↦ rw (h, replace_file) (kept e r)
      | inl h ↦
          subst (λ b. Replaced w b (replace_file w temporary syncs r parent_synced) r) (whole h)
            (elim (after_io-cases (fsync_loop syncs) fsync_failed) [
              | inl (e, k) ↦ rw (h, k, replace_file) (kept e r)
              | inr (_, k) ↦ last h k r
            ])
    ]
  where
    last :
        temporary.thrown ≡ none
        → after_io (fsync_loop syncs) fsync_failed ≡ ok tt
        → (r : Replacement)
        → Replaced w temporary.bytes (replace_file w temporary syncs r parent_synced) r
    last h k refused = rw (h, k, replace_file) (kept write_failed refused)
    last h k installed =
        rw (h, k, replace_file) (replaced (if parent_synced then ok tt else err fsync_failed))
    last h k detached = rw (h, k, replace_file) (unlinked write_failed)

newer_than-IsLog :
    (crc32 : Bytes → ℕ) (w : Wal) (rs : List RecoveredRecord) (checkpoint : ℕ) (bytes : Bytes)
    → IsLog crc32 w rs
    → bytes ≡ header ++ serialize_all crc32 (newer_than checkpoint rs)
    → IsLog crc32
        (record w { file = bytes; position = length bytes; linked = true })
        (newer_than checkpoint rs)
newer_than-IsLog crc32 w rs checkpoint bytes l e = record {
  content = e;
  at_end = refl;
  ascending = newer_than-Ascends checkpoint none rs l.ascending;
  fitting = newer_than-All Fits checkpoint rs l.fitting;
  next_fits = l.next_fits;
  below = newer_than-All (λ r. r.sequence < w.next_sequence) checkpoint rs l.below;
}

-- What a reclamation of a log of these records may leave.
abbrev pub Reclaimed :
    (Bytes → ℕ)
    → Wal
    → List RecoveredRecord
    → ℕ
    → Wal × Result WalError (Unit {0})
    → Replacement
    → Type 0
Reclaimed crc32 w rs checkpoint (w', result) replacement =
    (w'.next_sequence ≡ w.next_sequence)
    × (IsLog crc32 w' (newer_than checkpoint rs)
        ⊎ (IsLog crc32 w' rs × (e : WalError) × (result ≡ err e)))
    × (w.linked ≡ true → (w'.linked ≡ true) ⊎ (replacement ≡ detached))

Replaced-Reclaimed :
    (crc32 : Bytes → ℕ) (w : Wal) (rs : List RecoveredRecord) (checkpoint : ℕ) (bytes : Bytes)
    (out : Wal × Result WalError (Unit {0})) (replacement : Replacement)
    → IsLog crc32 w rs
    → bytes ≡ header ++ serialize_all crc32 (newer_than checkpoint rs)
    → Replaced w bytes out replacement
    → Reclaimed crc32 w rs checkpoint out replacement
Replaced-Reclaimed crc32 w rs checkpoint bytes out replacement l e (kept x r) =
    (refl, inr (l, x, refl), λ h. inl h)
Replaced-Reclaimed crc32 w rs checkpoint bytes out replacement l e (replaced result) =
    (refl, inl (newer_than-IsLog crc32 w rs checkpoint bytes l e), λ h. inl refl)
Replaced-Reclaimed crc32 w rs checkpoint bytes out replacement l e (unlinked x) =
    (refl, inr (unlinked_log, x, refl), λ h. inr refl)
  where
    unlinked_log : IsLog crc32 (record w { linked = false }) rs
    unlinked_log = record {
      content = l.content;
      at_end = l.at_end;
      ascending = l.ascending;
      fitting = l.fitting;
      next_fits = l.next_fits;
      below = l.below;
    }

-- On a whole log, however the system calls answer, reclamation leaves a whole log: of exactly the
-- records past the checkpoint, or of all the records, and then it throws. The number of the next
-- record stays. The path of the log still names its file, unless the new file was put in its place
-- and could not be opened again.
pub reclaim_through-IsLog :
    (crc32 : Bytes → ℕ) (w : Wal) (rs : List RecoveredRecord) (checkpoint : ℕ)
    (writes : List WriteReturn) (syncs : List FsyncReturn) (replacement : Replacement)
    (parent_synced : Bool)
    → IsLog crc32 w rs
    → Reclaimed crc32 w rs checkpoint
        (reclaim_through crc32 w checkpoint writes syncs replacement parent_synced)
        replacement
unfolding reclaim_through
reclaim_through-IsLog crc32 w rs checkpoint writes syncs replacement parent_synced l =
    let bytes : Bytes = header ++ serialize_all crc32 (newer_than checkpoint rs) in
    let out =
      replace_file w (rewrite_file crc32 checkpoint rs writes) syncs replacement parent_synced in
    let r =
      replace_file-Replaced w (rewrite_file crc32 checkpoint rs writes) syncs replacement
        parent_synced bytes (rewrite_file-whole crc32 checkpoint rs writes) in
    rw (recover-IsLog crc32 w rs l, recover-unchanged crc32 w rs l, reclaim_through)
      (Replaced-Reclaimed crc32 w rs checkpoint bytes out replacement l refl r)
