-- ===== src/Engine/Newest.antt =====
-- `get` (src/engine.cpp) answers with the newest version of the key that the engine holds, in the
-- memtables or in a live table.
pub mod Tables
use kronos_engine.Prelude.{
  ℕ, ◌≤◌, ◌≡◌, ◌⊎◌, inl, inr, refl, sym, ap, ◌∙◌, true, false, Bool-cases, Option, none, some,
  Option-cases, ok, List, [], ◌∷◌, Bytes, str_eq, str_eq_iff, All, arith, subst,
}
use kronos_engine.Types.{InternalEntry, SstableMetadata}
use kronos_engine.OrderedMap.{Map, find}
use kronos_engine.Memtable.{answer}
use kronos_engine.Files.{In}
use kronos_engine.Sstable.Reader.{SstableReader, open_table}
use kronos_engine.Sstable.Lookup.{lookup_entry}
use kronos_engine.Sstable.Tables.{IsTable}
use kronos_engine.Engine.{Engine}
use kronos_engine.Engine.Reading.{
  consider_newer, find_reader, open_path, get_sstable_reader, out_of_range, search_files,
  memory_entry, get_value,
}
use kronos_engine.Engine.Memory.{read_of, get_value-read_of}
use kronos_engine.Engine.Newest.Tables.{newest_of, Covers, IsLive, IsCached, search_files-newest_of}

-- The winner is as new as a version of the key, or as the one at hand.
abbrev pub Covered : Option InternalEntry → InternalEntry → Type 0
Covered none v = ⊥
Covered (some w) v = v.sequence ≤ w.sequence

consider_newer-Covered :
    (w c : Option InternalEntry) (v : InternalEntry) → Covered w v → Covered (consider_newer w c) v
unfolding consider_newer
consider_newer-Covered none c v h = absurd h
consider_newer-Covered (some w) none v h = h
consider_newer-Covered (some w) (some c) v h = ground arith

consider_newer-candidate :
    (w : Option InternalEntry) (c : InternalEntry) → Covered (consider_newer w (some c)) c
unfolding consider_newer
consider_newer-candidate none c = omega arith
consider_newer-candidate (some w) c = ground arith

consider_newer-from :
    (w c : Option InternalEntry) (v : InternalEntry)
    → consider_newer w c ≡ some v
    → (w ≡ some v) ⊎ (c ≡ some v)
unfolding consider_newer
consider_newer-from none none v h = inl h
consider_newer-from none (some c) v h = inr h
consider_newer-from (some w) none v h = inl h
consider_newer-from (some w) (some c) v h = ground arith

module _ (table : Bytes → Map InternalEntry) (key : Bytes) where
  newest_of-Covered :
      (live : List SstableMetadata) (w : Option InternalEntry) (v : InternalEntry)
      → Covered w v
      → Covered (newest_of table key live w) v
  unfolding newest_of
  newest_of-Covered [] w v h = h
  newest_of-Covered (m ∷ live) w v h =
      newest_of-Covered live (consider_newer w (find key (table m.path))) v
        (consider_newer-Covered w (find key (table m.path)) v h)

  newest_of-newest :
      (live : List SstableMetadata) (w : Option InternalEntry) (m : SstableMetadata)
      (v : InternalEntry)
      → In m live
      → find key (table m.path) ≡ some v
      → Covered (newest_of table key live w) v
  unfolding newest_of
  newest_of-newest [] w m v i h = absurd i
  newest_of-newest (n ∷ live) w m v (inl here) h =
      let found : find key (table n.path) ≡ some v =
        ap (λ (x : SstableMetadata). find key (table x.path)) here ∙ h in
      newest_of-Covered live (consider_newer w (find key (table n.path))) v
        (subst (λ c. Covered (consider_newer w c) v) (sym found) (consider_newer-candidate w v))
  newest_of-newest (n ∷ live) w m v (inr later) h =
      newest_of-newest live (consider_newer w (find key (table n.path))) m v later h

  newest_of-from :
      (live : List SstableMetadata) (w : Option InternalEntry) (v : InternalEntry)
      → newest_of table key live w ≡ some v
      → (w ≡ some v) ⊎ ((m : SstableMetadata) × In m live × (find key (table m.path) ≡ some v))
  unfolding newest_of
  newest_of-from [] w v h = inl h
  newest_of-from (n ∷ live) w v h =
      elim (newest_of-from live (consider_newer w (find key (table n.path))) v h) [
        | inr (m, i, f) ↦ inr (m, inr i, f)
        | inl c ↦ elim (consider_newer-from w (find key (table n.path)) v c) [
          | inl a ↦ inl a
          | inr b ↦ inr (n, inl refl, b)
        ]
      ]

-- A version of the key that the engine holds.
abbrev pub InTable : (Bytes → Map InternalEntry) → Engine → Bytes → InternalEntry → Type 0
InTable table e key v =
    (m : SstableMetadata) × In m e.manifest.memory.live_files × (find key (table m.path) ≡ some v)

abbrev pub Holds : (Bytes → Map InternalEntry) → Engine → Bytes → InternalEntry → Type 0
Holds table e key v =
    (memory_entry e.active_memtable key ≡ some v)
    ⊎ ((memory_entry e.immutable_memtable key ≡ some v) ⊎ InTable table e key v)

-- The newest of the versions that the engine holds, or none where it holds none.
pub record IsNewest (table : Bytes → Map InternalEntry) (e : Engine) (key : Bytes)
    (o : Option InternalEntry) : Type 0 where
  pub newest : (v : InternalEntry) → Holds table e key v → Covered o v
  pub held : (v : InternalEntry) → o ≡ some v → Holds table e key v

-- The generations of a key: what the active memtable holds is not older than the rest, and what the
-- immutable one holds is not older than the tables.
pub record InOrder (table : Bytes → Map InternalEntry) (e : Engine) (key : Bytes) : Type 0 where
  pub active_newer :
      (v w : InternalEntry)
      → memory_entry e.active_memtable key ≡ some v
      → (memory_entry e.immutable_memtable key ≡ some w) ⊎ InTable table e key w
      → w.sequence ≤ v.sequence
  pub immutable_newer :
      (v w : InternalEntry)
      → memory_entry e.immutable_memtable key ≡ some v
      → InTable table e key w
      → w.sequence ≤ v.sequence

module _ (table : Bytes → Map InternalEntry) (e : Engine) (key : Bytes)
    (order : InOrder table e key) where
  covered_same :
      (o : Option InternalEntry) (a v : InternalEntry)
      → o ≡ some a
      → o ≡ some v
      → Covered (some a) v
  covered_same o a v h k = let same : a ≡ v = cc (h, k) in ap_le same
    where
      ap_le : a ≡ v → v.sequence ≤ a.sequence
      ap_le q = omega (arith, ap (λ (x : InternalEntry). x.sequence) q)

  from_active :
      (a : InternalEntry)
      → memory_entry e.active_memtable key ≡ some a
      → IsNewest table e key (some a)
  from_active a h = record {
    newest = λ v p. elim p [
      | inl q ↦ covered_same (memory_entry e.active_memtable key) a v h q
      | inr q ↦ order.active_newer a v h q
    ];
    held = λ v p. inl (h ∙ p);
  }

  from_immutable :
      (a : InternalEntry)
      → memory_entry e.active_memtable key ≡ none
      → memory_entry e.immutable_memtable key ≡ some a
      → IsNewest table e key (some a)
  from_immutable a n h = record {
    newest = λ v p. elim p [
      | inl q ↦ absurd (cc (n, q))
      | inr q ↦ elim q [
        | inl r ↦ covered_same (memory_entry e.immutable_memtable key) a v h r
        | inr r ↦ order.immutable_newer a v h r
      ]
    ];
    held = λ v p. inr (inl (h ∙ p));
  }

  from_tables :
      memory_entry e.active_memtable key ≡ none
      → memory_entry e.immutable_memtable key ≡ none
      → IsNewest table e key (newest_of table key e.manifest.memory.live_files none)
  from_tables n i = record {
    newest = λ v p. elim p [
      | inl q ↦ absurd (cc (n, q))
      | inr q ↦ elim q [
        | inl r ↦ absurd (cc (i, r))
        | inr (m, here, f) ↦ newest_of-newest table key e.manifest.memory.live_files none m v here f
      ]
    ];
    held = λ v p. elim (newest_of-from table key e.manifest.memory.live_files none v p) [
      | inl q ↦ absurd (cc q)
      | inr r ↦ inr (inr r)
    ];
  }

-- Where every live path holds its table within its range, the cache is right and the generations are
-- in order, `get` does not throw: it answers for the newest of the versions of the key that the
-- engine holds in a memtable or in a live table, and that the key is not found only where it holds
-- none.
pub get_value-IsNewest :
    (crc32 : Bytes → ℕ) (murmur : Bytes → ℕ → ℕ) (files : Bytes → Option Bytes)
    (table : Bytes → Map InternalEntry) (e : Engine) (key : Bytes)
    → All (IsLive crc32 murmur files table) e.manifest.memory.live_files
    → All (IsCached crc32 murmur files table) e.sstable_readers
    → InOrder table e key
    → (o : Option InternalEntry) × IsNewest table e key o
      × ((get_value crc32 murmur files e key).1 ≡ ok (answer o))
unfolding read_of
get_value-IsNewest crc32 murmur files table e key live cached order =
    let reads = get_value-read_of crc32 murmur files key e in
    elim (Option-cases (memory_entry e.active_memtable key)) [
      | inr (a, h) ↦ (some a, from_active table e key order a h, reads ∙ rw h refl)
      | inl h ↦ elim (Option-cases (memory_entry e.immutable_memtable key)) [
        | inr (i, k) ↦ (some i, from_immutable table e key order i h k, reads ∙ rw (h, k) refl)
        | inl k ↦
            let s =
              search_files-newest_of crc32 murmur files table key e.manifest.memory.live_files none
                e.sstable_readers live cached in
            (
              newest_of table key e.manifest.memory.live_files none,
              from_tables table e key order h k,
              reads ∙ rw (h, k, read_of, s.0) refl,
            )
      ]
    ]
