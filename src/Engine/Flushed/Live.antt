-- ===== src/Engine/Flushed/Live.antt =====
-- The live files, the cached readers and the versions of every key, before and after a new table
-- joins the live ones (src/engine.cpp, `flushMemtable`).
use kronos_engine.Prelude.{
  ℕ, ◌≡◌, ◌≢◌, ◌⊎◌, ◌↔◌, inl, inr, refl, sym, ap, ◌∙◌, true, false, Bool-cases, Option, none, some,
  List, [], ◌∷◌, Bytes, str_eq, str_eq_iff, if◌then◌else◌, All, All-imp, subst,
}
use kronos_engine.Types.{InternalEntry, SstableMetadata}
use kronos_engine.OrderedMap.{Map, find}
use kronos_engine.Memtable.{Memtable, MemTableState, mutable, immutable}
use kronos_engine.Files.{In}
use kronos_engine.Sstable.Tables.{IsTable}
use kronos_engine.Engine.{Engine}
use kronos_engine.Engine.Reading.{memory_entry}
use kronos_engine.Engine.Flush.{largest_key}
use kronos_engine.Engine.Newest.{InOrder, Holds, InTable}
use kronos_engine.Engine.Newest.Tables.{IsLive, IsCached, Covers}
use kronos_engine.Sstable.Reader.{SstableReader}
use kronos_engine.Memtable

All-In {κ} :
    (P : SstableMetadata → Type κ) (live : List SstableMetadata)
    → ((m : SstableMetadata) → In m live → P m)
    → All P live
All-In P [] h = tt
All-In P (m ∷ live) h = (h m (inl refl), All-In P live (λ n i. h n (inr i)))

In-All {κ} :
    (P : SstableMetadata → Type κ) (live : List SstableMetadata) (m : SstableMetadata)
    → All P live
    → In m live
    → P m
In-All P [] m a i = absurd i
In-All P (n ∷ live) m a (inl here) = subst P here a.0
In-All P (n ∷ live) m a (inr later) = In-All P live m a.1 later

-- A map from paths, changed at one path.
abbrev pub changed {ℓ} : {A : Type ℓ} → Bytes → A → (Bytes → A) → Bytes → A
changed path value f p = if str_eq p path then value else f p

abbrev pub new_file : Bytes → Bytes → Map InternalEntry → SstableMetadata
new_file path key rest = record {
  path = path;
  level = 0;
  smallest_key = key;
  largest_key = largest_key key rest;
}

module _ (crc32 : Bytes → ℕ) (murmur : Bytes → ℕ → ℕ) (files : Bytes → Option Bytes)
    (table : Bytes → Map InternalEntry) (e f : Engine) (path file : Bytes) (all : Map InternalEntry)
    (made : SstableMetadata) (free : files path ≡ none) (at_path : made.path ≡ path)
    (live : All (IsLive crc32 murmur files table) e.manifest.memory.live_files)
    (is_table : IsTable crc32 murmur file all) (covers : Covers made all)
    (next : (m : SstableMetadata)
      → In m f.manifest.memory.live_files ↔ (In m e.manifest.memory.live_files ⊎ (made ≡ m))) where
  abbrev files' : Bytes → Option Bytes
  files' = changed path (some file) files

  abbrev table' : Bytes → Map InternalEntry
  table' = changed path all table

  other_path : (p x : Bytes) → files p ≡ some x → str_eq p path ≡ false
  other_path p x h = elim (Bool-cases (str_eq p path)) [
    | inr other ↦ other
    | inl same ↦ absurd (clash (ap files (sym ((str_eq_iff p path).0 same)) ∙ h))
  ]
    where
      clash : files path ≡ some x → ⊥
      clash k = cc (free, k)

  kept : (m : SstableMetadata) → In m e.manifest.memory.live_files → str_eq m.path path ≡ false
  kept m i =
      let l = In-All (IsLive crc32 murmur files table) e.manifest.memory.live_files m live i in
      other_path m.path l.file l.there

  self : str_eq made.path path ≡ true
  self = (str_eq_iff made.path path).1 at_path

  live-kept :
      (m : SstableMetadata)
      → In m e.manifest.memory.live_files
      → IsLive crc32 murmur files' table' m
  live-kept m i =
      let l = In-All (IsLive crc32 murmur files table) e.manifest.memory.live_files m live i in
      let other = kept m i in
      let same : table' m.path ≡ table m.path = rw other refl in
      record {
        file = l.file;
        there = rw other l.there;
        is_table = subst (λ entries. IsTable crc32 murmur l.file entries) (sym same) l.is_table;
        covers = subst (λ entries. Covers m entries) (sym same) l.covers;
      }

  live-made : IsLive crc32 murmur files' table' made
  live-made =
      let same : table' made.path ≡ all = rw self refl in
      record {
        file = file;
        there = rw self refl;
        is_table = subst (λ entries. IsTable crc32 murmur file entries) (sym same) is_table;
        covers = subst (λ entries. Covers made entries) (sym same) covers;
      }

  pub all_live : All (IsLive crc32 murmur files' table') f.manifest.memory.live_files
  all_live = All-In (IsLive crc32 murmur files' table') f.manifest.memory.live_files (λ m i.
      elim ((next m).0 i) [
        | inl old ↦ live-kept m old
        | inr new ↦ subst (λ x. IsLive crc32 murmur files' table' x) new live-made
      ])

  pub all-IsCached :
      (cache : List (Bytes × SstableReader))
      → All (IsCached crc32 murmur files table) cache
      → All (IsCached crc32 murmur files' table') cache
  all-IsCached cache c =
      All-imp
        (λ x h. record {
          file = h.file;
          there = rw (other_path x.0 h.file h.there) h.there;
          opened = h.opened;
        })
        cache c

  -- The versions in tables afterwards: those before, and those of the new table.
  InTable-flushed :
      (key : Bytes) (v : InternalEntry)
      → InTable table' f key v ↔ (InTable table e key v ⊎ (find key all ≡ some v))
  InTable-flushed key v = (
    λ (m, i, h). elim ((next m).0 i) [
      | inl old ↦ inl (
        m,
        old,
        (let same : table' m.path ≡ table m.path = rw (kept m old) refl in
            ap (find key) (sym same) ∙ h),
      )
      | inr new ↦
          let same : table' m.path ≡ all =
            ap (λ (x : SstableMetadata). table' x.path) (sym new) ∙ (rw self refl) in
          inr (ap (find key) (sym same) ∙ h)
    ],
    λ p. elim p [
      | inl (m, i, h) ↦
          let same : table' m.path ≡ table m.path = rw (kept m i) refl in
          (m, (next m).1 (inl i), ap (find key) same ∙ h)
      | inr h ↦
          let same : table' made.path ≡ all = rw self refl in
          (made, (next made).1 (inr refl), ap (find key) same ∙ h)
    ],
  )

  module _ (t : Memtable) (in_slot : e.immutable_memtable ≡ some t) (entries : t.mtable ≡ all)
      (slot : f.immutable_memtable ≡ none) (active : f.active_memtable ≡ e.active_memtable) where
    slot_entry : (key : Bytes) → memory_entry e.immutable_memtable key ≡ find key all
    unfolding Memtable.lookup_entry
    slot_entry key = ap (λ s. memory_entry s key) in_slot ∙ ap (find key) entries

    no_slot : (key : Bytes) (v : InternalEntry) → memory_entry f.immutable_memtable key ≢ some v
    no_slot key v h =
        let gone : memory_entry f.immutable_memtable key ≡ none =
          ap (λ s. memory_entry s key) slot in
        cc (gone, h)

    active_entry :
        (key : Bytes) → memory_entry f.active_memtable key ≡ memory_entry e.active_memtable key
    active_entry key = ap (λ a. memory_entry a key) active

    -- The engine holds the same versions of every key.
    pub Holds-flushed :
        (key : Bytes) (v : InternalEntry) → Holds table' f key v ↔ Holds table e key v
    Holds-flushed key v = (
      λ p. elim p [
        | inl a ↦ inl (sym (active_entry key) ∙ a)
        | inr q ↦ elim q [
          | inl i ↦ absurd (no_slot key v i)
          | inr d ↦ elim ((InTable-flushed key v).0 d) [
            | inl old ↦ inr (inr old)
            | inr new ↦ inr (inl (slot_entry key ∙ new))
          ]
        ]
      ],
      λ p. elim p [
        | inl a ↦ inl (active_entry key ∙ a)
        | inr q ↦ elim q [
          | inl i ↦ inr (inr ((InTable-flushed key v).1 (inr (sym (slot_entry key) ∙ i))))
          | inr d ↦ inr (inr ((InTable-flushed key v).1 (inl d)))
        ]
      ],
    )

    pub InOrder-flushed : (key : Bytes) → InOrder table e key → InOrder table' f key
    InOrder-flushed key o = record {
      active_newer = λ v w h q. elim q [
        | inl i ↦ absurd (no_slot key w i)
        | inr d ↦ elim ((InTable-flushed key w).0 d) [
          | inl old ↦ o.active_newer v w (sym (active_entry key) ∙ h) (inr old)
          | inr new ↦ o.active_newer v w (sym (active_entry key) ∙ h) (inl (slot_entry key ∙ new))
        ]
      ];
      immutable_newer = λ v w h d. absurd (no_slot key v h);
    }
