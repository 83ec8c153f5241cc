-- ===== src/Engine/Replayed.antt =====
-- What a restart restores (src/engine.cpp, `recover`): the writes of the log past the checkpoint.
use kronos_engine.Prelude.{
  ℕ, ◌+◌, ◌-◌, ◌^◌, ◌<◌, ◌≡◌, inl, inr, refl, ap, ◌∙◌, false, Option, none, some, ok, List, [], ◌∷◌,
  ◌++◌, Bytes, ltb, ◌==◌, str_eq, if◌then◌else◌, All, arith, Bool-cases, All-imp, ltb→lt, length,
  Option-cases,
}
use kronos_engine.Types.{InternalEntry}
use kronos_engine.OrderedMap.{find}
use kronos_engine.Memtable
use kronos_engine.Memtable.{
  Memtable, MemTableState, mutable, WriteResult, success, write_mutable, write, store,
}
use kronos_engine.Memtable.Versions.{
  Write, entry_of, apply, apply_all, newest, newer, apply-eq-write, find-write_mutable,
  state-write_mutable, lookup_entry-init,
}
use kronos_engine.Wal.Format.{RecoveredRecord, Follows, Ascends, Fits, header, serialize_all}
use kronos_engine.Wal.Log.{Wal, ensure_next_sequence_at_least}
use kronos_engine.Wal.Replay.{next_after, recover-log, IsTail}
use kronos_engine.Engine.{Engine}
use kronos_engine.Engine.Reading.{memory_entry}
use kronos_engine.Engine.Restart.{
  is_covered, goes_back, replay_record, replay, raise_sequence, recover_engine,
  validate_manifest_sstables,
}

-- The write that a record stands for.
abbrev pub write_of : RecoveredRecord → Write
write_of r = record { key = r.key; value = r.value; sequence = r.sequence; operation = r.operation }

-- The writes of the records past a checkpoint.
pub writes_past : Option ℕ → List RecoveredRecord → List Write
writes_past checkpoint [] = []
writes_past checkpoint (r ∷ rs) =
    if is_covered checkpoint r.sequence
    then writes_past checkpoint rs
    else write_of r ∷ writes_past checkpoint rs

-- Every number that may follow is larger than those in the table.
IsBehind : Option ℕ → Memtable → Type 0
IsBehind previous t =
    (j : Bytes) (e : InternalEntry)
    → Memtable.lookup_entry t j ≡ some e
    → (n : ℕ) → Follows previous n
    → e.sequence < n

replay_record-apply :
    (t : Memtable) (r : RecoveredRecord) → replay_record t r ≡ apply t (write_of r)
unfolding replay_record apply
replay_record-apply t r = ground arith

entry_sequence : (w : Write) → (entry_of w).sequence ≡ w.sequence
entry_sequence w = ground arith

-- A table takes a write that comes after all it has.
write_mutable-newer :
    (t : Memtable) (key : Bytes) (e : InternalEntry)
    → ((old : InternalEntry) → find key t.mtable ≡ some old → old.sequence < e.sequence)
    → (write_mutable t key e).1 ≡ success
unfolding write_mutable
write_mutable-newer t key e h = elim (Option-cases (find key t.mtable)) [
  | inl n ↦ ground arith
  | inr (old, s) ↦ ground (arith, h old s)
]

module _ (previous : Option ℕ) (t : Memtable) (r : RecoveredRecord) (m : t.state ≡ mutable)
    (behind : IsBehind previous t) (follows : Follows previous r.sequence) where
  applied : apply t (write_of r) ≡ write_mutable t r.key (entry_of (write_of r))
  unfolding write
  applied = rw (apply-eq-write t (write_of r), m) refl

  taken : (replay_record t r).1 ≡ success
  unfolding IsBehind Memtable.lookup_entry
  taken =
      ap (λ (x : Memtable × WriteResult). x.1) (replay_record-apply t r ∙ applied)
      ∙ write_mutable-newer t r.key (entry_of (write_of r)) (λ old s.
        omega (arith, entry_sequence (write_of r), behind r.key old s r.sequence follows))

  still_mutable : (replay_record t r).0.state ≡ mutable
  still_mutable =
      ap (λ (x : Memtable × WriteResult). x.0.state) (replay_record-apply t r ∙ applied)
      ∙ state-write_mutable t r.key (entry_of (write_of r))
      ∙ m

  still-IsBehind : IsBehind (some r.sequence) (replay_record t r).0
  unfolding IsBehind Memtable.lookup_entry
  still-IsBehind j e h n later =
      let e₁ = entry_of (write_of r) in
      let reads : find j (replay_record t r).0.mtable
          ≡ (if str_eq r.key j then some (newer (find j t.mtable) e₁) else find j t.mtable) =
        ap (λ (x : Memtable × WriteResult). find j x.0.mtable) (replay_record-apply t r ∙ applied)
        ∙ find-write_mutable t r.key e₁ j in
      elim (Option-cases (find j t.mtable)) [
        | inl none_there ↦ ground (arith, entry_sequence (write_of r))
        | inr (old, s) ↦
            ground (arith, entry_sequence (write_of r), behind j old s r.sequence follows)
      ]

-- Following a skipped record instead.
skipped-IsBehind :
    (previous : Option ℕ) (t : Memtable) (s : ℕ)
    → IsBehind previous t
    → Follows previous s
    → IsBehind (some s) t
unfolding IsBehind
skipped-IsBehind none t s b f j e h n later = b j e h n tt
skipped-IsBehind (some p) t s b f j e h n later = b j e h n (omega arith)

goes_on : (previous : Option ℕ) (n : ℕ) → Follows previous n → goes_back previous n ≡ false
unfolding goes_back
goes_on none n f = refl
goes_on (some p) n f = ground arith

-- Records of a log replay without an exception, and the table takes the writes past the checkpoint.
replay-writes_past :
    (checkpoint previous : Option ℕ) (t : Memtable) (rs : List RecoveredRecord)
    → t.state ≡ mutable
    → IsBehind previous t
    → All Fits rs
    → Ascends previous rs
    → replay checkpoint previous t rs ≡ ok (apply_all t (writes_past checkpoint rs))
unfolding replay writes_past apply_all
replay-writes_past checkpoint previous t [] m b f a = refl
replay-writes_past checkpoint previous t (r ∷ rs) m b f a =
    let on = goes_on previous r.sequence a.0 in
    let fits : (r.sequence == 2 ^ 64 - 1) ≡ false = ground (arith, f.0.sequence_fits) in
    elim (Bool-cases (is_covered checkpoint r.sequence)) [
      | inl covered ↦
          rw (on, fits, covered)
            (replay-writes_past checkpoint (some r.sequence) t rs m
              (skipped-IsBehind previous t r.sequence b a.0) f.1 a.1)
      | inr past ↦
          rw (on, fits, past, taken previous t r m b a.0)
            (replay-writes_past checkpoint (some r.sequence) (replay_record t r).0 rs
                (still_mutable previous t r m b a.0) (still-IsBehind previous t r m b a.0) f.1 a.1
              ∙ ap (λ (x : Memtable × WriteResult). ok (apply_all x.0 (writes_past checkpoint rs)))
                  (replay_record-apply t r))
    ]

abbrev pub to_list : Option ℕ → List ℕ
to_list none = []
to_list (some n) = n ∷ []

new_mutable : (target : ℕ) → (Memtable.init target).state ≡ mutable
unfolding Memtable.init
new_mutable target = refl

new-IsBehind : (target : ℕ) → IsBehind none (Memtable.init target)
unfolding IsBehind Memtable.init Memtable.lookup_entry find
new-IsBehind target j e h n f = cc

-- The number after the last record is past them all.
next_after-past :
    (previous : Option ℕ) (n : ℕ) (rs : List RecoveredRecord)
    → Ascends previous rs
    → All (λ r. r.sequence < next_after n rs) rs
next_after-past previous n [] a = tt
next_after-past previous n (r ∷ []) a = (omega arith, tt)
next_after-past previous n (r ∷ s ∷ rs) a =
    let later = next_after-past (some r.sequence) (r.sequence + 1) (s ∷ rs) a.1 in
    (omega (arith, later.0, a.1.0), later)

raise_sequence-ok :
    (c : Option ℕ) (w : Wal) (rs : List RecoveredRecord)
    → All (λ n. n < 2 ^ 64 - 1) (to_list c)
    → All (λ r. r.sequence < w.next_sequence) rs
    → (w' : Wal) × (raise_sequence c w ≡ ok w')
      × All (λ n. n < w'.next_sequence) (to_list c)
      × All (λ r. r.sequence < w'.next_sequence) rs
unfolding raise_sequence ensure_next_sequence_at_least
raise_sequence-ok none w rs f a = (w, refl, tt, a)
raise_sequence-ok (some c) w rs f a =
    let fits : (c == 2 ^ 64 - 1) ≡ false = ground (arith, f.0) in
    elim (Bool-cases (ltb w.next_sequence (c + 1))) [
      | inl raised ↦ (
        record w { next_sequence = c + 1 },
        rw (fits, raised) refl,
        (omega arith, tt),
        All-imp (λ r h. omega (arith, h, ltb→lt w.next_sequence (c + 1) raised)) rs a,
      )
      | inr kept ↦ (w, rw (fits, kept) refl, (ground arith, tt), a)
    ]

module _ (crc32 : Bytes → ℕ) (files : Bytes → Option Bytes) (e : Engine) (rs : List RecoveredRecord)
    (tail : Bytes) (target : ℕ) where
  new_wal : Wal
  new_wal = record e.wal {
    file = header ++ serialize_all crc32 rs;
    position = length (header ++ serialize_all crc32 rs);
    next_sequence = next_after e.wal.next_sequence rs;
  }

  -- A restart on a log of records with ascending numbers, a torn last record perhaps, and live tables
  -- that open: it does not throw; every key then reads in the active memtable the newest of its
  -- writes in the log past the checkpoint; and the next number is past the checkpoint and past every
  -- record of the log.
  pub recover_engine-restores :
      e.wal.file ≡ (header ++ serialize_all crc32 rs) ++ tail
      → All Fits rs
      → Ascends none rs
      → IsTail crc32 tail
      → validate_manifest_sstables crc32 files e.manifest.memory.live_files ≡ ok tt
      → e.active_memtable ≡ some (Memtable.init target)
      → All (λ c. c < 2 ^ 64 - 1) (to_list e.manifest.memory.persisted_through)
      → (e' : Engine) × (recover_engine crc32 files e ≡ ok e')
        × ((key : Bytes)
            → memory_entry e'.active_memtable key
              ≡ newest key none (writes_past e.manifest.memory.persisted_through rs))
        × All (λ r. r.sequence < e'.wal.next_sequence) rs
        × All (λ c. c < e'.wal.next_sequence) (to_list e.manifest.memory.persisted_through)
        × (e'.manifest ≡ e.manifest)
  unfolding recover_engine new_wal
  recover_engine-restores log fits ascends torn valid active checkpoint =
      let recovered = recover-log crc32 e.wal rs tail log fits ascends torn in
      let c = e.manifest.memory.persisted_through in
      let t = apply_all (Memtable.init target) (writes_past c rs) in
      let replayed : replay c none (Memtable.init target) rs ≡ ok t =
        replay-writes_past c none (Memtable.init target) rs (new_mutable target)
          (new-IsBehind target) fits ascends in
      let (w, raised, past, all_past) =
        raise_sequence-ok c new_wal rs checkpoint
          (next_after-past none e.wal.next_sequence rs ascends) in
      (
        record e { wal = w; active_memtable = some t },
        rw (valid, recovered, active, replayed, raised) refl,
        λ key. lookup_entry-init target (writes_past c rs) key,
        all_past,
        past,
        refl,
      )
