-- ===== src/Wal/Append.antt =====
-- An append, whatever the operating system does in it: the log stays recoverable.
use kronos_engine.Prelude.{
  ℕ, ◌+◌, ◌-◌, ◌^◌, ◌<◌, ◌≡◌, ◌≢◌, ◌⊎◌, inl, inr, refl, ap, ap₂, ◌∙◌, sym, Option, none, some,
  Result, ok, err, List, [], ◌∷◌, ◌++◌, Bytes, All, All-append, All-imp, false, Bool-cases, length,
  length-append, append-nil, take_all, drop_all, ltb, ◌==◌, ◌||◌, arith,
}
use kronos_engine.Types.{OperationType}
use kronos_engine.Io.{
  WriteReturn, FsyncReturn, Outcome, done, threw, stopped, write_loop, fsync_loop, write_loop-front,
}
use kronos_engine.Wal.Format.{
  RecoveredRecord, header, serialize, serialize_all, serialize_all-append, Fits, Follows, Ascends,
}
use kronos_engine.Wal.Scan.{WalError, write_failed, fsync_failed, process_stopped}
use kronos_engine.Wal.Ends.{read_record-nil}
use kronos_engine.Wal.Torn.{read_record-torn}
use kronos_engine.Wal.Log.{Wal, after_io, overwrite, append_record, write_record, recover}
use kronos_engine.Wal.Replay.{IsTail, recover-log}

-- The file holds whole records with ascending numbers below the next one, and the descriptor is at
-- the end.
pub record IsLog (crc32 : Bytes → ℕ) (w : Wal) (rs : List RecoveredRecord) : Type 0 where
  pub content : w.file ≡ header ++ serialize_all crc32 rs
  pub at_end : w.position ≡ length w.file
  pub ascending : Ascends none rs
  pub fitting : All Fits rs
  pub next_fits : w.next_sequence < 2 ^ 64
  pub below : All (λ r. r.sequence < w.next_sequence) rs

-- The record that a call asks for.
abbrev pub asked : Wal → OperationType → Bytes → Bytes → RecoveredRecord
asked w operation key val = record {
  sequence = w.next_sequence;
  operation = operation;
  key = key;
  value = val;
}

pub Ascends-append :
    (previous : Option ℕ) (rs : List RecoveredRecord) (r : RecoveredRecord)
    → Ascends previous rs
    → Follows previous r.sequence
    → All (λ q. q.sequence < r.sequence) rs
    → Ascends previous (rs ++ r ∷ [])
Ascends-append previous [] r a f b = (f, tt)
Ascends-append previous (q ∷ rs) r a f b = (a.0, Ascends-append (some q.sequence) rs r a.1 b.0 b.1)

pub overwrite-end :
    (file : Bytes) (at : ℕ) (bytes : Bytes)
    → at ≡ length file
    → overwrite file at bytes ≡ file ++ bytes
overwrite-end file at bytes e =
    ap₂ ◌++◌ (take_all at file (omega arith))
      (ap (◌++◌ bytes) (drop_all (at + length bytes) file (omega arith)) ∙ append-nil bytes)

front-IsTail :
    (crc32 : Bytes → ℕ) (r : RecoveredRecord) (front rest : Bytes)
    → Fits r
    → serialize crc32 r ≡ front ++ rest
    → rest ≢ []
    → IsTail crc32 front
front-IsTail crc32 r front [] f e ne = absurd (ne refl)
front-IsTail crc32 r [] (b ∷ bs) f e ne = λ previous. inl (refl, read_record-nil crc32 previous)
front-IsTail crc32 r (x ∷ xs) (b ∷ bs) f e ne =
    λ previous. inr (read_record-torn crc32 previous r x b xs bs f e)

-- What an append leaves, on every path of its system calls.
record Appended (w : Wal) (bytes : Bytes) (w' : Wal) (result : Result WalError ℕ) : Type 0 where
  front : Bytes
  rest : Bytes
  cut : bytes ≡ front ++ rest
  file : w'.file ≡ overwrite w.file w.position front
  position : w'.position ≡ w.position + length front
  outcome :
      ((e : WalError) × (result ≡ err e) × (w'.next_sequence ≡ w.next_sequence))
      ⊎ ((rest ≡ []) × (result ≡ ok w.next_sequence) × (w'.next_sequence ≡ w.next_sequence + 1))

pub after_io-cases :
    (o : Outcome) (e : WalError)
    → ((e' : WalError) × (after_io o e ≡ err e')) ⊎ ((o ≡ done) × (after_io o e ≡ ok tt))
unfolding after_io
after_io-cases done e = inr (refl, refl)
after_io-cases threw e = inl (e, refl)
after_io-cases stopped e = inl (process_stopped, refl)

append_record-Appended :
    (w : Wal) (bytes : Bytes) (writes : List WriteReturn) (syncs : List FsyncReturn)
    → Appended w bytes (append_record w bytes writes syncs).0 (append_record w bytes writes syncs).1
unfolding append_record
append_record-Appended w bytes writes syncs =
    let (rest, cut, whole) = write_loop-front bytes writes in
    record {
      front = (write_loop bytes writes).bytes;
      rest = rest;
      cut = cut;
      file = ground arith;
      position = ground arith;
      outcome = elim (after_io-cases (write_loop bytes writes).outcome write_failed) [
        | inl (e, h) ↦ inl (e, rw (h, append_record) refl, rw (h, append_record) refl)
        | inr (finished, h) ↦ elim (after_io-cases (fsync_loop syncs) fsync_failed) [
          | inl (e, k) ↦ inl (e, rw (h, k, append_record) refl, rw (h, k, append_record) refl)
          | inr (_, k) ↦
              inr (whole.0 finished, rw (h, k, append_record) refl, rw (h, k, append_record) refl)
        ]
      ];
    }

pub IsTail-nil : (crc32 : Bytes → ℕ) → IsTail crc32 []
IsTail-nil crc32 previous = inl (refl, read_record-nil crc32 previous)

recover-content :
    (crc32 : Bytes → ℕ) (w : Wal) (rs : List RecoveredRecord) (tail : Bytes)
    → w.file ≡ (header ++ serialize_all crc32 rs) ++ tail
    → All Fits rs
    → Ascends none rs
    → IsTail crc32 tail
    → (recover crc32 w).1 ≡ ok rs
recover-content crc32 w rs tail e f a t = rw (recover-log crc32 w rs tail e f a t) refl

-- A whole log recovers to its records.
pub recover-IsLog :
    (crc32 : Bytes → ℕ) (w : Wal) (rs : List RecoveredRecord)
    → IsLog crc32 w rs
    → (recover crc32 w).1 ≡ ok rs
recover-IsLog crc32 w rs l =
    recover-content crc32 w rs [] (l.content ∙ sym (append-nil _)) l.fitting l.ascending
      (IsTail-nil crc32)

module _ (crc32 : Bytes → ℕ) (w : Wal) (rs : List RecoveredRecord) (l : IsLog crc32 w rs)
    (r : RecoveredRecord) (f : Fits r) (same : r.sequence ≡ w.next_sequence) where
  abbrev longer : List RecoveredRecord
  longer = rs ++ r ∷ []

  longer-Ascends : Ascends none longer
  longer-Ascends =
      Ascends-append none rs r l.ascending tt (All-imp (λ q h. omega (arith, h, same)) rs l.below)

  longer-Fits : All Fits longer
  longer-Fits = All-append Fits rs (r ∷ []) l.fitting (f, tt)

  longer-bytes :
      header ++ serialize_all crc32 longer ≡ (header ++ serialize_all crc32 rs) ++ serialize crc32 r
  longer-bytes = ap (◌++◌ header) (
      serialize_all-append crc32 rs (r ∷ [])
      ∙ ap (◌++◌ (serialize_all crc32 rs)) (unfold serialize_all in append-nil _))

  module _ {w' : Wal} {result : Result WalError ℕ}
      (a : Appended w (serialize crc32 r) w' result) where
    appended-file : w'.file ≡ (header ++ serialize_all crc32 rs) ++ a.front
    appended-file =
        a.file ∙ overwrite-end w.file w.position a.front l.at_end ∙ ap (λ x. x ++ a.front) l.content

    whole-front : a.rest ≡ [] → a.front ≡ serialize crc32 r
    whole-front e = sym (a.cut ∙ ap (◌++◌ a.front) e ∙ append-nil a.front)

    recover-appended : (recover crc32 w').1 ≡ ok rs ⊎ (recover crc32 w').1 ≡ ok longer
    recover-appended = go a.rest refl
      where
        go :
            (rest : Bytes)
            → a.rest ≡ rest
            → (recover crc32 w').1 ≡ ok rs ⊎ (recover crc32 w').1 ≡ ok longer
        go [] e = inr (
            recover-content crc32 w' longer []
              (appended-file
                ∙ ap (◌++◌ (header ++ serialize_all crc32 rs)) (whole-front e)
                ∙ sym longer-bytes
                ∙ sym (append-nil _))
              longer-Fits longer-Ascends (IsTail-nil crc32))
        go (b ∷ bs) e = inl (
            recover-content crc32 w' rs a.front appended-file l.fitting l.ascending
              (front-IsTail crc32 r a.front a.rest f a.cut (λ nothing. cc (nothing, e))))

    appended-IsLog : a.rest ≡ [] → w'.next_sequence ≡ w.next_sequence + 1 → IsLog crc32 w' longer
    appended-IsLog whole next = record {
      content =
          appended-file
          ∙ ap (◌++◌ (header ++ serialize_all crc32 rs)) (whole-front whole)
          ∙ sym longer-bytes;
      at_end = omega (
        arith,
        a.position,
        l.at_end,
        ap length appended-file,
        ap length l.content,
        length-append (header ++ serialize_all crc32 rs) a.front,
      );
      ascending = longer-Ascends;
      fitting = longer-Fits;
      next_fits = omega (arith, f.sequence_fits, same, next);
      below =
          All-append (λ q. q.sequence < w'.next_sequence) rs (r ∷ [])
            (All-imp (λ q h. omega (arith, h, next)) rs l.below) (omega (arith, same, next), tt);
    }

    appended-ok : (n : ℕ) → result ≡ ok n → (n ≡ w.next_sequence) × IsLog crc32 w' longer
    appended-ok n h = elim a.outcome [
      | inl (e, k, _) ↦ absurd (cc (h, k))
      | inr (whole, k, next) ↦ (cc (h, k), appended-IsLog whole next)
    ]

pub asked-Fits :
    (w : Wal) (operation : OperationType) (key val : Bytes)
    → w.next_sequence < 2 ^ 64
    → (w.next_sequence == 2 ^ 64 - 1) ≡ false
    → (ltb (2 ^ 32 - 1) (length key) || ltb (2 ^ 32 - 1) (length val)) ≡ false
    → Fits (asked w operation key val)
asked-Fits w operation key val fits more small = record {
  key_fits = ground arith;
  value_fits = ground arith;
  sequence_fits = ground arith;
}

-- An append is all or nothing, however `write` and `fsync` answer and wherever the process stops:
-- recovery then returns the records from before, or those and the new one. If the append returned,
-- it returned the next sequence number and the log holds the new record behind the old ones.
pub write_record-atomic :
    (crc32 : Bytes → ℕ) (w : Wal) (rs : List RecoveredRecord) (operation : OperationType)
    (key val : Bytes) (writes : List WriteReturn) (syncs : List FsyncReturn)
    → IsLog crc32 w rs
    → let (w', result) = write_record crc32 w operation key val writes syncs in
      ((recover crc32 w').1 ≡ ok rs
        ⊎ (recover crc32 w').1 ≡ ok (rs ++ asked w operation key val ∷ []))
      × ((n : ℕ)
          → result ≡ ok n
          → (n ≡ w.next_sequence) × IsLog crc32 w' (rs ++ asked w operation key val ∷ []))
unfolding write_record
write_record-atomic crc32 w rs operation key val writes syncs l =
    elim (Bool-cases (w.next_sequence == 2 ^ 64 - 1)) [
      | inl last ↦ rw last (inl (recover-IsLog crc32 w rs l), λ n h. absurd (cc h))
      | inr more ↦
          elim (Bool-cases (ltb (2 ^ 32 - 1) (length key) || ltb (2 ^ 32 - 1) (length val))) [
            | inl large ↦ rw (more, large) (inl (recover-IsLog crc32 w rs l), λ n h. absurd (cc h))
            | inr small ↦
                let r = asked w operation key val in
                let f = asked-Fits w operation key val l.next_fits more small in
                let a = append_record-Appended w (serialize crc32 r) writes syncs in
                rw (more, small)
                  (recover-appended crc32 w rs l r f refl a, appended-ok crc32 w rs l r f refl a)
          ]
    ]
