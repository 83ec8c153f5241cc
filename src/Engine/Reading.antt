-- ===== src/Engine/Reading.antt =====
-- `KronosEngine::get`, `getSstableReader` and `considerNewer` (src/engine.cpp).
use kronos_engine.Prelude.{
  ℕ, Bool, ◌||◌, Option, none, some, Result, ok, err, List, [], ◌∷◌, Bytes, ltb, str_eq, str_lt,
  if◌then◌else◌,
}
use kronos_engine.Types.{InternalEntry, GetResult, SstableMetadata}
use kronos_engine.Memtable
use kronos_engine.Memtable.{Memtable, answer}
use kronos_engine.Sstable.Reader.{SstableReader, open_table}
use kronos_engine.Sstable.Lookup.{lookup_entry}
use kronos_engine.Engine.{Engine, EngineError, open_failed, of_sstable}

unfoldable pub consider_newer : Option InternalEntry → Option InternalEntry → Option InternalEntry
consider_newer winner none = winner
consider_newer none (some candidate) = some candidate
consider_newer (some w) (some candidate) =
    if ltb w.sequence candidate.sequence then some candidate else some w

-- `sstable_readers_.find(path)`
unfoldable pub find_reader : Bytes → List (Bytes × SstableReader) → Option SstableReader
find_reader path [] = none
find_reader path ((p, reader) ∷ cache) =
    if str_eq p path then some reader else find_reader path cache

unfoldable pub open_path :
    (Bytes → ℕ) → (Bytes → Option Bytes) → Bytes → Result EngineError SstableReader
open_path crc32 files path = elim (files path) [
  | none ↦ err open_failed
  | some file ↦ elim (open_table crc32 file) [ err e ↦ err (of_sstable e) | ok reader ↦ ok reader ]
]

-- The cache after the call, and the reader.
unfoldable pub get_sstable_reader :
    (Bytes → ℕ)
    → (Bytes → Option Bytes)
    → Bytes
    → List (Bytes × SstableReader)
    → List (Bytes × SstableReader) × Result EngineError SstableReader
get_sstable_reader crc32 files path cache = elim (find_reader path cache) [
  | some reader ↦ (cache, ok reader)
  | none ↦ elim (open_path crc32 files path) [
    | err e ↦ (cache, err e)
    | ok reader ↦ ((path, reader) ∷ cache, ok reader)
  ]
]

abbrev pub out_of_range : Bytes → SstableMetadata → Bool
out_of_range key metadata = str_lt key metadata.smallest_key || str_lt metadata.largest_key key

-- The loop over the live files: the cache after it, and the winner.
unfoldable pub search_files :
    (Bytes → ℕ)
    → (Bytes → ℕ → ℕ)
    → (Bytes → Option Bytes)
    → Bytes
    → List SstableMetadata
    → Option InternalEntry
    → List (Bytes × SstableReader)
    → List (Bytes × SstableReader) × Result EngineError (Option InternalEntry)
search_files crc32 murmur files key [] winner cache = (cache, ok winner)
search_files crc32 murmur files key (metadata ∷ live) winner cache =
    let skipped = search_files crc32 murmur files key live winner cache in
    let opened = get_sstable_reader crc32 files metadata.path cache in
    if out_of_range key metadata then skipped else elim opened.1 [
      | err e ↦ (opened.0, err e)
      | ok reader ↦ elim (lookup_entry crc32 murmur reader key) [
        | err e ↦ (opened.0, err (of_sstable e))
        | ok candidate ↦
            search_files crc32 murmur files key live (consider_newer winner candidate) opened.0
      ]
    ]

-- `lookupEntry` of a memtable that may not be there.
abbrev pub memory_entry : Option Memtable → Bytes → Option InternalEntry
memory_entry none key = none
memory_entry (some t) key = Memtable.lookup_entry t key

unfoldable pub get_value :
    (Bytes → ℕ)
    → (Bytes → ℕ → ℕ)
    → (Bytes → Option Bytes)
    → Engine
    → Bytes
    → Engine × Result EngineError GetResult
get_value crc32 murmur files e key = elim (memory_entry e.active_memtable key) [
  | some entry ↦ (e, ok (answer (some entry)))
  | none ↦ elim (memory_entry e.immutable_memtable key) [
    | some entry ↦ (e, ok (answer (some entry)))
    | none ↦
        let (cache, found) =
          search_files crc32 murmur files key e.manifest.memory.live_files none e.sstable_readers in
        (
          record e { sstable_readers = cache },
          elim found [ err error ↦ err error | ok winner ↦ ok (answer winner) ],
        )
  ]
]
