-- ===== src/Engine/Client.antt =====
-- What a client sees: `put`, `remove` and `get` (src/engine.cpp) are those of a map.
use kronos_engine.Prelude.{
  ℕ, ◌≡◌, ◌⊎◌, inl, inr, refl, sym, ap, ◌∙◌, List, Option, some, Option-cases, Result-cases, ok,
  Bytes, [], str_eq, if◌then◌else◌, arith,
}
use kronos_engine.Types.{InternalEntry, put, delete, found, deleted}
use kronos_engine.Memtable
use kronos_engine.Memtable.{Memtable, WriteResult, success, answer}
use kronos_engine.Io.{WriteReturn, FsyncReturn}
use kronos_engine.Wal.Log.{Wal, put_record, remove_record}
use kronos_engine.Engine.{
  Engine, EngineError, Step, goes_on, sleeps, throws, prepare_for_write_locked, settle_write,
  put_logged, remove_logged, candidate_of, put_value, remove_value,
}
use kronos_engine.Engine.Reading.{get_value}
use kronos_engine.Engine.Memory.{
  prepare-goes_on, write-success, rotated-reads, written-reads, get_value-read_of,
}

Step-cases :
    (s : Step)
    → ((e : Engine) × (s ≡ goes_on e))
      ⊎ ((s ≡ sleeps) ⊎ ((x : EngineError) × (e : Engine) × (s ≡ throws x e)))
Step-cases (goes_on e) = inl (e, refl)
Step-cases sleeps = inr (inl refl)
Step-cases (throws x e) = inr (inr (x, e, refl))

WriteResult-cases :
    (r : WriteResult) → (r ≡ success) ⊎ (r ≡ WriteResult.frozen ⊎ r ≡ WriteResult.older_sequence)
WriteResult-cases success = inl refl
WriteResult-cases WriteResult.frozen = inr (inl refl)
WriteResult-cases WriteResult.older_sequence = inr (inr refl)

settle_write-goes_on :
    (e e' : Engine) (r : Memtable × WriteResult)
    → settle_write e r ≡ goes_on e'
    → (r.1 ≡ success) × (record e { active_memtable = some r.0 } ≡ e')
settle_write-goes_on e e' (t, success) h = (refl, cc)
settle_write-goes_on e e' (t, WriteResult.frozen) h = cc
settle_write-goes_on e e' (t, WriteResult.older_sequence) h = cc

put_logged-goes_on :
    (e e' : Engine) (k value : Bytes) (n : ℕ)
    → put_logged e k value n ≡ goes_on e'
    → (t : Memtable) × (e.active_memtable ≡ some t)
      × (settle_write e (Memtable.put_entry t k value n) ≡ goes_on e')
unfolding put_logged
put_logged-goes_on e e' k value n h = elim (Option-cases e.active_memtable) [
  | inl a ↦ absurd (ground arith)
  | inr (t, a) ↦ (t, a, rw a at h)
]

put_value-goes_on :
    (crc32 : Bytes → ℕ) (e e' : Engine) (k value : Bytes) (writes : List WriteReturn)
    (syncs : List FsyncReturn)
    → put_value crc32 e k value writes syncs ≡ goes_on e'
    → (e₁ : Engine) × (prepare_for_write_locked e k (candidate_of value put) ≡ goes_on e₁)
      × (wal : Wal) × (n : ℕ) × (put_logged (record e₁ { wal = wal }) k value n ≡ goes_on e')
unfolding put_value
put_value-goes_on crc32 e e' k value writes syncs h =
    elim (Step-cases (prepare_for_write_locked e k (candidate_of value put))) [
      | inr (inl p) ↦ absurd (ground arith)
      | inr (inr (x, y, p)) ↦ absurd (ground arith)
      | inl (e₁, p) ↦
          let r = put_record crc32 e₁.wal k value writes syncs in
          elim (Result-cases r.1) [
            | inr (x, l) ↦ absurd (ground arith)
            | inl (n, l) ↦ (e₁, p, r.0, n, ground arith)
          ]
    ]

remove_logged-goes_on :
    (e e' : Engine) (k : Bytes) (n : ℕ)
    → remove_logged e k n ≡ goes_on e'
    → (t : Memtable) × (e.active_memtable ≡ some t)
      × (settle_write e (Memtable.remove_entry t k n) ≡ goes_on e')
unfolding remove_logged
remove_logged-goes_on e e' k n h = elim (Option-cases e.active_memtable) [
  | inl a ↦ absurd (ground arith)
  | inr (t, a) ↦ (t, a, rw a at h)
]

remove_value-goes_on :
    (crc32 : Bytes → ℕ) (e e' : Engine) (k : Bytes) (writes : List WriteReturn)
    (syncs : List FsyncReturn)
    → remove_value crc32 e k writes syncs ≡ goes_on e'
    → (e₁ : Engine) × (prepare_for_write_locked e k (candidate_of [] delete) ≡ goes_on e₁)
      × (wal : Wal) × (n : ℕ) × (remove_logged (record e₁ { wal = wal }) k n ≡ goes_on e')
unfolding remove_value
remove_value-goes_on crc32 e e' k writes syncs h =
    elim (Step-cases (prepare_for_write_locked e k (candidate_of [] delete))) [
      | inr (inl p) ↦ absurd (ground arith)
      | inr (inr (x, y, p)) ↦ absurd (ground arith)
      | inl (e₁, p) ↦
          let r = remove_record crc32 e₁.wal k writes syncs in
          elim (Result-cases r.1) [
            | inr (x, l) ↦ absurd (ground arith)
            | inl (n, l) ↦ (e₁, p, r.0, n, ground arith)
          ]
    ]

module _ (crc32 : Bytes → ℕ) (murmur : Bytes → ℕ → ℕ) (files : Bytes → Option Bytes) where
  prepared-reads :
      (e e₁ : Engine) (k key : Bytes) (c : InternalEntry)
      → prepare_for_write_locked e k c ≡ goes_on e₁
      → (get_value crc32 murmur files e₁ key).1 ≡ (get_value crc32 murmur files e key).1
  prepared-reads e e₁ k key c h = elim (prepare-goes_on e e₁ k c h) [
    | inl same ↦ ap (λ x. (get_value crc32 murmur files x key).1) (sym same)
    | inr (active, a, i, moved) ↦
        ap (λ x. (get_value crc32 murmur files x key).1) (sym moved)
        ∙ rotated-reads crc32 murmur files key e active a i
  ]

  -- A write from the check before it to the memtable.
  settled-reads :
      (e e₁ e' : Engine) (wal : Wal) (k key : Bytes) (c w : InternalEntry) (t : Memtable)
      (r : Memtable × WriteResult)
      → prepare_for_write_locked e k c ≡ goes_on e₁
      → e₁.active_memtable ≡ some t
      → settle_write (record e₁ { wal = wal }) r ≡ goes_on e'
      → (r.1 ≡ success
          → (j : Bytes)
          → Memtable.lookup_entry r.0 j
            ≡ (if str_eq k j then some w else Memtable.lookup_entry t j))
      → (get_value crc32 murmur files e' key).1
        ≡ (if str_eq k key then ok (answer (some w)) else (get_value crc32 murmur files e key).1)
  settled-reads e e₁ e' wal k key c w t r p a s took =
      let e₂ : Engine = record e₁ { wal = wal } in
      let (good, same) = settle_write-goes_on e₂ e' r s in
      let logged : (get_value crc32 murmur files e₂ key).1
          ≡ (get_value crc32 murmur files e₁ key).1 =
        get_value-read_of crc32 murmur files key e₂
        ∙ sym (get_value-read_of crc32 murmur files key e₁) in
      ap (λ x. (get_value crc32 murmur files x key).1) (sym same)
      ∙ written-reads crc32 murmur files key e₂ t r.0 k w a (took good)
      ∙ ap (λ x. if str_eq k key then ok (answer (some w)) else x)
          (logged ∙ prepared-reads e e₁ k key c p)

  -- After a `put` that returns, whatever `write` and `fsync` answered and whether or not the memtable
  -- was rotated, `get` of its key answers the value, and `get` of any other key answers what it
  -- answered before.
  pub put_value-get_value :
      (e e' : Engine) (k value : Bytes) (writes : List WriteReturn) (syncs : List FsyncReturn)
      (key : Bytes)
      → put_value crc32 e k value writes syncs ≡ goes_on e'
      → (get_value crc32 murmur files e' key).1 ≡ (
          if str_eq k key
          then ok (record { value = value; status = found })
          else (get_value crc32 murmur files e key).1)
  unfolding Memtable.put_entry
  put_value-get_value e e' k value writes syncs key h =
      let (e₁, p, wal, n, l) = put_value-goes_on crc32 e e' k value writes syncs h in
      let (t, a, s) = put_logged-goes_on (record e₁ { wal = wal }) e' k value n l in
      let w : InternalEntry = record { value = value; sequence = n; operation = put } in
      settled-reads e e₁ e' wal k key (candidate_of value put) w t (Memtable.put_entry t k value n)
        p a s (λ good j. write-success t.state t k w j good)

  -- After a `remove` that returns, `get` of its key answers that it was deleted, and `get` of any
  -- other key answers what it answered before.
  pub remove_value-get_value :
      (e e' : Engine) (k : Bytes) (writes : List WriteReturn) (syncs : List FsyncReturn)
      (key : Bytes)
      → remove_value crc32 e k writes syncs ≡ goes_on e'
      → (get_value crc32 murmur files e' key).1 ≡ (
          if str_eq k key
          then ok (record { value = []; status = deleted })
          else (get_value crc32 murmur files e key).1)
  unfolding Memtable.remove_entry
  remove_value-get_value e e' k writes syncs key h =
      let (e₁, p, wal, n, l) = remove_value-goes_on crc32 e e' k writes syncs h in
      let (t, a, s) = remove_logged-goes_on (record e₁ { wal = wal }) e' k n l in
      let w : InternalEntry = record { value = []; sequence = n; operation = delete } in
      settled-reads e e₁ e' wal k key (candidate_of [] delete) w t (Memtable.remove_entry t k n) p a
        s (λ good j. write-success t.state t k w j good)
