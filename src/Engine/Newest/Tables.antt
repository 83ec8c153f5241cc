-- ===== src/Engine/Newest/Tables.antt =====
-- The loop of `get` (src/engine.cpp) over the live files, by the entries of their tables.
use kronos_engine.Prelude.{
  ℕ, ◌≡◌, inl, inr, refl, sym, ap, ◌∙◌, true, false, Bool-cases, Option, none, some, Option-cases,
  ok, List, [], ◌∷◌, Bytes, str_eq, str_eq_iff, All, subst,
}
use kronos_engine.Types.{InternalEntry, SstableMetadata}
use kronos_engine.OrderedMap.{Map, find}
use kronos_engine.Sstable.Reader.{SstableReader, open_table}
use kronos_engine.Sstable.Lookup.{lookup_entry}
use kronos_engine.Sstable.Tables.{IsTable}
use kronos_engine.Engine.Reading.{
  consider_newer, find_reader, open_path, get_sstable_reader, out_of_range, search_files,
}

-- The winner over the live files, by the entries of their tables.
unfoldable pub newest_of :
    (Bytes → Map InternalEntry)
    → Bytes
    → List SstableMetadata
    → Option InternalEntry
    → Option InternalEntry
newest_of table key [] winner = winner
newest_of table key (m ∷ live) winner =
    newest_of table key live (consider_newer winner (find key (table m.path)))

-- The range of a file covers its keys.
abbrev pub Covers : SstableMetadata → Map InternalEntry → Type 0
Covers m entries = All (λ r. out_of_range r.0 m ≡ false) entries

find-out_of_range :
    (key : Bytes) (m : SstableMetadata) (entries : Map InternalEntry)
    → Covers m entries
    → out_of_range key m ≡ true
    → find key entries ≡ none
unfolding find
find-out_of_range key m [] c h = refl
find-out_of_range key m ((j, e) ∷ rest) c h = elim (Bool-cases (str_eq j key)) [
  | inl same ↦
      let inside : out_of_range key m ≡ false =
        subst (λ k. out_of_range k m ≡ false) ((str_eq_iff j key).0 same) c.0 in
      absurd (cc (inside, h))
  | inr other ↦ rw other (find-out_of_range key m rest c.1 h)
]

module _ (crc32 : Bytes → ℕ) (murmur : Bytes → ℕ → ℕ) (files : Bytes → Option Bytes)
    (table : Bytes → Map InternalEntry) where
  -- The path of a live file holds a table, in the range that the manifest says.
  pub record IsLive (m : SstableMetadata) : Type 0 where
    pub file : Bytes
    pub there : files m.path ≡ some file
    pub is_table : IsTable crc32 murmur file (table m.path)
    pub covers : Covers m (table m.path)

  -- A reader of the cache is one of the file.
  pub record IsCached (entry : Bytes × SstableReader) : Type 0 where
    pub file : Bytes
    pub there : files entry.0 ≡ some file
    pub opened : open_table crc32 file ≡ ok entry.1

  find_reader-IsCached :
      (path : Bytes) (cache : List (Bytes × SstableReader)) (reader : SstableReader)
      → All IsCached cache
      → find_reader path cache ≡ some reader
      → IsCached (path, reader)
  unfolding find_reader
  find_reader-IsCached path [] reader c h = cc
  find_reader-IsCached path ((p, r) ∷ cache) reader c h = elim (Bool-cases (str_eq p path)) [
    | inl same ↦
        let k : r ≡ reader = cc (rw same at h) in
        record {
          file = c.0.file;
          there = ap files (sym ((str_eq_iff p path).0 same)) ∙ c.0.there;
          opened = c.0.opened ∙ ap ok k;
        }
    | inr other ↦ find_reader-IsCached path cache reader c.1 (rw other at h)
  ]

  -- What the call gives for a live file: its reader, and the cache stays right.
  record Opened (m : SstableMetadata) (cache : List (Bytes × SstableReader)) : Type 0 where
    reader : SstableReader
    given : (get_sstable_reader crc32 files m.path cache).1 ≡ ok reader
    cached : All IsCached (get_sstable_reader crc32 files m.path cache).0
    reads : (key : Bytes) → lookup_entry crc32 murmur reader key ≡ ok (find key (table m.path))

  same_reader :
      (file : Bytes) (entries : Map InternalEntry) (t : IsTable crc32 murmur file entries)
      (reader : SstableReader) (key : Bytes)
      → open_table crc32 file ≡ ok reader
      → lookup_entry crc32 murmur reader key ≡ ok (find key entries)
  same_reader file entries t reader key o =
      let same : t.reader ≡ reader = cc (t.opens, o) in
      subst (λ r. lookup_entry crc32 murmur r key ≡ ok (find key entries)) same (t.looks_up key)

  open-live :
      (m : SstableMetadata) (cache : List (Bytes × SstableReader))
      → IsLive m
      → All IsCached cache
      → Opened m cache
  unfolding get_sstable_reader open_path
  open-live m cache l c = elim (Option-cases (find_reader m.path cache)) [
    | inr (reader, h) ↦
        let known = find_reader-IsCached m.path cache reader c h in
        let same : known.file ≡ l.file = cc (known.there, l.there) in
        let call = get_sstable_reader crc32 files m.path cache in
        let hit : call ≡ (cache, ok reader) = rw (get_sstable_reader, h) refl in
        record {
          reader = reader;
          given = ap (λ x. x.1) hit;
          cached = subst (λ x. All IsCached x) (ap (λ x. x.0) (sym hit)) c;
          reads = λ key.
              same_reader l.file (table m.path) l.is_table reader key
                (ap (open_table crc32) (sym same) ∙ known.opened);
        }
    | inl h ↦
        let call = get_sstable_reader crc32 files m.path cache in
        let fresh : call ≡ ((m.path, l.is_table.reader) ∷ cache, ok l.is_table.reader) =
          rw (get_sstable_reader, open_path, h, l.there, l.is_table.opens) refl in
        record {
          reader = l.is_table.reader;
          given = ap (λ x. x.1) fresh;
          cached =
              subst (λ x. All IsCached x) (ap (λ x. x.0) (sym fresh))
                (record { file = l.file; there = l.there; opened = l.is_table.opens }, c);
          reads = l.is_table.looks_up;
        }
  ]

  -- The loop over live files picks the winner, and leaves a right cache.
  pub search_files-newest_of :
      (key : Bytes) (live : List SstableMetadata) (winner : Option InternalEntry)
      (cache : List (Bytes × SstableReader))
      → All IsLive live
      → All IsCached cache
      → ((search_files crc32 murmur files key live winner cache).1
          ≡ ok (newest_of table key live winner))
        × All IsCached (search_files crc32 murmur files key live winner cache).0
  unfolding search_files newest_of consider_newer
  search_files-newest_of key [] winner cache l c = (refl, c)
  search_files-newest_of key (m ∷ live) winner cache l c = elim (Bool-cases (out_of_range key m)) [
    | inl out ↦
        rw (out, find-out_of_range key m (table m.path) l.0.covers out)
          (search_files-newest_of key live winner cache l.1 c)
    | inr inside ↦
        let o = open-live m cache l.0 c in
        rw (inside, o.given, o.reads key)
          (search_files-newest_of key live (consider_newer winner (find key (table m.path)))
            (get_sstable_reader crc32 files m.path cache).0 l.1 o.cached)
  ]
