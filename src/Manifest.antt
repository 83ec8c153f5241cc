-- ===== src/Manifest.antt =====
-- src/manifest.cpp: the set of live SSTables and the checkpoint. `Snapshot` is what the file of the
-- manifest holds, as text on disk and in memory; the text is not modelled here. What the file system
-- answers while a snapshot is committed is an argument.
pub mod Paths
pub mod Edits
pub mod Commit
mod Examples
use kronos_engine.Prelude.{
  ℕ, Bool, true, false, not, ◌||◌, ◌&&◌, Option, none, some, Result, ok, err, List, [], ◌∷◌, ◌++◌,
  Bytes, length, ltb, ◌==◌, str_eq, str_lt, if◌then◌else◌,
}
use kronos_engine.Types.{SstableMetadata, ManifestEdit}
use kronos_engine.Files.{sort_metadata}

-- The exceptions of the manifest, and the end of the process.
pub data ManifestError : Type 0 where
  empty_path invalid_range unknown_file duplicate_file backwards_checkpoint : ManifestError
  not_written not_committed directory_not_synced : ManifestError
  process_stopped : ManifestError

pub record Snapshot : Type 0 where
  pub live_files : List SstableMetadata
  pub persisted_through : Option ℕ

-- The object, and what the path of the manifest holds.
pub record Manifest : Type 0 where
  pub memory : Snapshot
  pub disk : Snapshot

abbrev is_empty_path : Bytes → Bool
is_empty_path [] = true
is_empty_path (c ∷ cs) = false

-- The exception that it throws, if it throws.
unfoldable pub validate_metadata : SstableMetadata → Option ManifestError
validate_metadata metadata =
    if is_empty_path metadata.path
    then some empty_path
    else if str_lt metadata.largest_key metadata.smallest_key
    then some invalid_range
    else none

pub files_at_level : ℕ → List SstableMetadata → List SstableMetadata
files_at_level level [] = []
files_at_level level (file ∷ files) =
    if file.level == level then file ∷ files_at_level level files else files_at_level level files

-- `std::any_of` with the path: `contains`, and the test for duplicates.
unfoldable pub contains : Bytes → List SstableMetadata → Bool
contains path [] = false
contains path (file ∷ files) = str_eq file.path path || contains path files

-- `erase(remove_if(...))`
unfoldable pub erase_path : Bytes → List SstableMetadata → List SstableMetadata
erase_path path [] = []
erase_path path (file ∷ files) =
    let rest = erase_path path files in if str_eq file.path path then rest else file ∷ rest

-- The loop over `remove_files`.
unfoldable pub remove_all :
    List Bytes → List SstableMetadata → Result ManifestError (List SstableMetadata)
remove_all [] state = ok state
remove_all (path ∷ paths) state =
    let next = erase_path path state in
    let rest = remove_all paths next in
    if length next == length state then err unknown_file else rest

-- The loop over `add_files`.
unfoldable pub add_each :
    List SstableMetadata → List SstableMetadata → Result ManifestError (List SstableMetadata)
add_each [] state = ok state
add_each (metadata ∷ files) state =
    let rest = add_each files (state ++ metadata ∷ []) in
    elim (validate_metadata metadata) [
      | some e ↦ err e
      | none ↦ if contains metadata.path state then err duplicate_file else rest
    ]

unfoldable pub advance_checkpoint : Option ℕ → Option ℕ → Result ManifestError (Option ℕ)
advance_checkpoint none current = ok current
advance_checkpoint (some n) none = ok (some n)
advance_checkpoint (some n) (some current) =
    if ltb n current then err backwards_checkpoint else ok (some n)

-- The next state, before anything is persisted.
unfoldable pub next_snapshot : ManifestEdit → Snapshot → Result ManifestError Snapshot
next_snapshot edit s = elim (remove_all edit.remove_files s.live_files) [
  | err e ↦ err e
  | ok kept ↦ elim (add_each edit.add_files kept) [
    | err e ↦ err e
    | ok files ↦ elim (advance_checkpoint edit.persisted_through s.persisted_through) [
      | err e ↦ err e
      | ok checkpoint ↦
          ok (record { live_files = sort_metadata files; persisted_through = checkpoint })
    ]
  ]
]

-- The first exception of `validateMetadata` over the files of a snapshot.
unfoldable pub validate_all : List SstableMetadata → Option ManifestError
validate_all [] = none
validate_all (file ∷ files) =
    let rest = validate_all files in elim (validate_metadata file) [ some e ↦ some e | none ↦ rest ]

-- How the writing of the temporary file and its renaming end: an exception or the end of the
-- process before the `rename`, a `rename` that fails, and after the `rename` the end of the process,
-- or the sync of the directory.
pub data CommitReturn : Type 0 where
  write_fails stops_before rename_fails stops_after directory_fails committed : CommitReturn

-- What the path holds after `persistSnapshot`, and its exception.
unfoldable pub persist_snapshot :
    Snapshot → Snapshot → CommitReturn → Snapshot × Option ManifestError
persist_snapshot next disk answer =
    let written : Snapshot × Option ManifestError = elim answer [
      | write_fails ↦ (disk, some not_written)
      | stops_before ↦ (disk, some process_stopped)
      | rename_fails ↦ (disk, some not_committed)
      | stops_after ↦ (next, some process_stopped)
      | directory_fails ↦ (next, some directory_not_synced)
      | committed ↦ (next, none)
    ] in
    elim (validate_all next.live_files) [ some e ↦ (disk, some e) | none ↦ written ]

unfoldable pub apply_edit :
    ManifestEdit → Manifest → CommitReturn → Manifest × Result ManifestError (Unit {0})
apply_edit edit m answer = elim (next_snapshot edit m.memory) [
  | err e ↦ (m, err e)
  | ok next ↦
      let (disk, thrown) = persist_snapshot next m.disk answer in
      elim thrown [
        | some e ↦ (record m { disk = disk }, err e)
        | none ↦ (record m { memory = next; disk = disk }, ok tt)
      ]
]
