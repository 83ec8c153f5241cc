-- ===== src/Files.antt =====
-- Lists of SSTable metadata: the order that src/manifest.cpp (`sortMetadata`) and
-- src/compaction_policy.cpp (`pickCompaction`) sort by, and `std::sort` by it.
pub mod Sorting
use kronos_engine.Prelude.{
  ℕ, ◌≡◌, ◌⊎◌, Bool, true, false, not, List, [], ◌∷◌, Bytes, str_lt, ltb, ◌==◌, if◌then◌else◌,
}
use kronos_engine.Types.{SstableMetadata}

-- The comparator: by level, then by path.
unfoldable pub file_precedes : SstableMetadata → SstableMetadata → Bool
file_precedes a b = if not (a.level == b.level) then ltb a.level b.level else str_lt a.path b.path

unfoldable pub insert_file : SstableMetadata → List SstableMetadata → List SstableMetadata
insert_file file [] = file ∷ []
insert_file file (x ∷ xs) =
    let rest = insert_file file xs in if file_precedes x file then x ∷ rest else file ∷ x ∷ xs

-- `std::sort` by the comparator, by insertion.
unfoldable pub sort_metadata : List SstableMetadata → List SstableMetadata
sort_metadata [] = []
sort_metadata (x ∷ xs) = insert_file x (sort_metadata xs)

abbrev pub In : SstableMetadata → List SstableMetadata → Type 0
In file [] = ⊥
In file (x ∷ xs) = (x ≡ file) ⊎ In file xs
