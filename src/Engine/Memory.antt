-- ===== src/Engine/Memory.antt =====
-- What clients see of `put` and `remove` (src/engine.cpp): the engine reads as a map.
use kronos_engine.Prelude.{
  ℕ, ◌≡◌, ◌⊎◌, inl, inr, refl, sym, ap, ap₂, ◌∙◌, List, Bool-cases, Option, none, some,
  Option-cases, Result, ok, err, Bytes, str_eq, if◌then◌else◌, arith,
}
use kronos_engine.Types.{InternalEntry, GetResult, SstableMetadata}
use kronos_engine.OrderedMap.{find}
use kronos_engine.OrderedMap.Laws.{find-insert_or_assign}
use kronos_engine.Memtable
use kronos_engine.Memtable.{
  Memtable, MemTableState, mutable, immutable, WriteResult, success, write, write_mutable, store,
  freeze, answer, entry_count,
}
use kronos_engine.Queue
use kronos_engine.Sstable.Reader.{SstableReader}
use kronos_engine.Engine.{
  Engine, EngineError, goes_on, rotate_memtable, rotate_active_memtable_locked,
  prepare_for_write_locked,
}
use kronos_engine.Engine.Reading.{memory_entry, get_value, search_files}

write_mutable-success :
    (t : Memtable) (key : Bytes) (e : InternalEntry) (j : Bytes)
    → (write_mutable t key e).1 ≡ success
    → find j (write_mutable t key e).0.mtable ≡ (if str_eq key j then some e else find j t.mtable)
unfolding write_mutable store
write_mutable-success t key e j h = ground (arith, find-insert_or_assign key j e t.mtable)

-- A write that a memtable takes is what it then reads, and every other key reads as before.
pub write-success :
    (s : MemTableState) (t : Memtable) (key : Bytes) (e : InternalEntry) (j : Bytes)
    → (write s t key e).1 ≡ success
    → Memtable.lookup_entry (write s t key e).0 j
      ≡ (if str_eq key j then some e else Memtable.lookup_entry t j)
unfolding write Memtable.lookup_entry
write-success immutable t key e j h = cc
write-success mutable t key e j h = write_mutable-success t key e j h

lookup-freeze :
    (t : Memtable) (j : Bytes) → Memtable.lookup_entry (freeze t).0 j ≡ Memtable.lookup_entry t j
unfolding freeze Memtable.lookup_entry
lookup-freeze t j = ground arith

-- The engine after a rotation.
abbrev pub rotated : Engine → Memtable → Engine
rotated e active = record e {
  immutable_memtable = some (freeze active).0;
  active_memtable = some (Memtable.init e.memtable_target_bytes);
  flush_queue = (Queue.push (freeze active).0 e.flush_queue).0;
}

rotate_memtable-goes_on :
    (e e' : Engine) (active : Memtable)
    → rotate_memtable e active ≡ goes_on e'
    → (e ≡ e') ⊎ (rotated e active ≡ e')
unfolding rotate_memtable
rotate_memtable-goes_on e e' active h = ground arith

rotate_active-goes_on :
    (e e' : Engine)
    → rotate_active_memtable_locked e ≡ goes_on e'
    → (active : Memtable) × (e.active_memtable ≡ some active)
      × (e.immutable_memtable ≡ none)
      × (rotate_memtable e active ≡ goes_on e')
unfolding rotate_active_memtable_locked
rotate_active-goes_on e e' h = elim (Option-cases e.active_memtable) [
  | inl n ↦ absurd (ground arith)
  | inr (active, s) ↦ (active, s, ground arith, ground arith)
]

prepare-rotates :
    (e e' : Engine) (key : Bytes) (c : InternalEntry)
    → prepare_for_write_locked e key c ≡ goes_on e'
    → (e ≡ e') ⊎ (rotate_active_memtable_locked e ≡ goes_on e')
unfolding prepare_for_write_locked
prepare-rotates e e' key c h = ground arith

-- Before a write nothing changes, or a memtable moves into the free slot.
pub prepare-goes_on :
    (e e' : Engine) (key : Bytes) (c : InternalEntry)
    → prepare_for_write_locked e key c ≡ goes_on e'
    → (e ≡ e')
      ⊎ ((active : Memtable) × (e.active_memtable ≡ some active)
          × (e.immutable_memtable ≡ none)
          × (rotated e active ≡ e'))
prepare-goes_on e e' key c h = elim (prepare-rotates e e' key c h) [
  | inl same ↦ inl same
  | inr r ↦
      let (active, a, i, k) = rotate_active-goes_on e e' r in
      elim (rotate_memtable-goes_on e e' active k) [
        | inl same ↦ inl same
        | inr moved ↦ inr (active, a, i, moved)
      ]
]

module _ (crc32 : Bytes → ℕ) (murmur : Bytes → ℕ → ℕ) (files : Bytes → Option Bytes)
    (key : Bytes) where
  -- What `get` answers, by what the memtables hold.
  unfoldable pub read_of :
      Option InternalEntry
      → Option InternalEntry
      → List SstableMetadata
      → List (Bytes × SstableReader)
      → Result EngineError GetResult
  read_of (some a) i live cache = ok (answer (some a))
  read_of none (some i) live cache = ok (answer (some i))
  read_of none none live cache = elim (search_files crc32 murmur files key live none cache).1 [
    | err error ↦ err error
    | ok winner ↦ ok (answer winner)
  ]

  pub get_value-read_of :
      (e : Engine)
      → (get_value crc32 murmur files e key).1
        ≡ read_of
            (memory_entry e.active_memtable key)
            (memory_entry e.immutable_memtable key)
            e.manifest.memory.live_files
            e.sstable_readers
  unfolding get_value read_of
  get_value-read_of e = elim (Option-cases (memory_entry e.active_memtable key)) [
    | inr (a, h) ↦ rw (get_value, h) refl
    | inl h ↦ elim (Option-cases (memory_entry e.immutable_memtable key)) [
      | inr (i, k) ↦ rw (get_value, h, k) refl
      | inl k ↦ rw (get_value, h, k) refl
    ]
  ]

  pub rotated-reads :
      (e : Engine) (active : Memtable)
      → e.active_memtable ≡ some active
      → e.immutable_memtable ≡ none
      → (get_value crc32 murmur files (rotated e active) key).1
        ≡ (get_value crc32 murmur files e key).1
  unfolding read_of Memtable.init Memtable.lookup_entry find
  rotated-reads e active a i =
      let now = Memtable.lookup_entry active key in
      let live = e.manifest.memory.live_files in
      let before : (get_value crc32 murmur files e key).1
          ≡ read_of now none live e.sstable_readers =
        get_value-read_of e
        ∙ ap₂ (λ a i. read_of (memory_entry a key) (memory_entry i key) live e.sstable_readers) a
            i in
      let after : (get_value crc32 murmur files (rotated e active) key).1
          ≡ read_of none now live e.sstable_readers =
        get_value-read_of (rotated e active)
        ∙ ap (λ o. read_of none o live e.sstable_readers) (lookup-freeze active key) in
      after ∙ moved now ∙ sym before
    where
      moved :
          (o : Option InternalEntry)
          → read_of none o e.manifest.memory.live_files e.sstable_readers
            ≡ read_of o none e.manifest.memory.live_files e.sstable_readers
      moved none = refl
      moved (some v) = refl

  -- A write that the active memtable took.
  pub written-reads :
      (e : Engine) (t u : Memtable) (k : Bytes) (w : InternalEntry)
      → e.active_memtable ≡ some t
      → ((j : Bytes)
          → Memtable.lookup_entry u j ≡ (if str_eq k j then some w else Memtable.lookup_entry t j))
      → (get_value crc32 murmur files (record e { active_memtable = some u }) key).1
        ≡ (if str_eq k key then ok (answer (some w)) else (get_value crc32 murmur files e key).1)
  unfolding read_of
  written-reads e t u k w a reads =
      let live = e.manifest.memory.live_files in
      let old = memory_entry e.immutable_memtable key in
      let before : (get_value crc32 murmur files e key).1
          ≡ read_of (Memtable.lookup_entry t key) old live e.sstable_readers =
        get_value-read_of e ∙ ap (λ a. read_of (memory_entry a key) old live e.sstable_readers) a in
      let after : (get_value crc32 murmur files (record e { active_memtable = some u }) key).1
          ≡ read_of (if str_eq k key then some w else Memtable.lookup_entry t key) old live
              e.sstable_readers =
        get_value-read_of (record e { active_memtable = some u })
        ∙ ap (λ o. read_of o old live e.sstable_readers) (reads key) in
      elim (Bool-cases (str_eq k key)) [
        | inl same ↦ rw same (after ∙ rw same refl)
        | inr other ↦ rw other (after ∙ rw other (sym before))
      ]
