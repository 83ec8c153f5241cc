-- ===== src/Policy.antt =====
-- src/compaction_policy.cpp: which SSTables one compaction of L0 into L1 takes.
pub mod Ranges
pub mod Picks
pub mod Separation
pub mod Throws
mod Examples
use kronos_engine.Prelude.{
  ℕ, zero, ◌+◌, Bool, true, false, not, ◌||◌, Option, none, some, Result, ok, err, List, [], ◌∷◌,
  ◌++◌, Bytes, length, ltb, leb, ◌==◌, str_lt, if◌then◌else◌,
}
use kronos_engine.Types.{SstableMetadata, CompactionPlan}
use kronos_engine.Files.{sort_metadata}

-- The exceptions of the policy.
pub data PolicyError : Type 0 where
  zero_trigger invalid_l0_range invalid_l1_range : PolicyError

pub record CompactionPolicy : Type 0 where
  pub l0_file_trigger : ℕ

-- `CompactionPolicy(l0_file_trigger)`
pub make_policy : ℕ → Result PolicyError CompactionPolicy
make_policy trigger =
    if trigger == 0 then err zero_trigger else ok (record { l0_file_trigger = trigger })

abbrev pub bottom_level : ℕ
bottom_level = 1

pub ranges_overlap : Bytes → Bytes → Bytes → Bytes → Bool
ranges_overlap a_smallest a_largest b_smallest b_largest =
    not (str_lt a_largest b_smallest || str_lt b_largest a_smallest)

pub count_l0 : List SstableMetadata → ℕ
count_l0 [] = 0
count_l0 (file ∷ files) = (if file.level == 0 then 1 else 0) + count_l0 files

pub should_compact : CompactionPolicy → List SstableMetadata → Bool
should_compact policy live_files = leb policy.l0_file_trigger (count_l0 live_files)

abbrev pub then_file :
    SstableMetadata
    → Result PolicyError (List SstableMetadata)
    → Result PolicyError (List SstableMetadata)
then_file file (ok files) = ok (file ∷ files)
then_file file (err e) = err e

-- The loop that collects the files of L0.
pub collect_l0 : List SstableMetadata → Result PolicyError (List SstableMetadata)
collect_l0 [] = ok []
collect_l0 (file ∷ files) =
    let rest = collect_l0 files in
    if not (file.level == 0)
    then rest
    else if str_lt file.largest_key file.smallest_key
    then err invalid_l0_range
    else then_file file rest

-- `std::min` and `std::max` on strings.
abbrev pub min_key : Bytes → Bytes → Bytes
min_key a b = if str_lt b a then b else a

abbrev pub max_key : Bytes → Bytes → Bytes
max_key a b = if str_lt a b then b else a

-- The loop that widens the key range.
pub envelope : Bytes → Bytes → List SstableMetadata → Bytes × Bytes
envelope smallest largest [] = (smallest, largest)
envelope smallest largest (file ∷ files) =
    envelope (min_key smallest file.smallest_key) (max_key largest file.largest_key) files

-- The loop that collects the files of L1 that overlap.
pub collect_l1 : Bytes → Bytes → List SstableMetadata → Result PolicyError (List SstableMetadata)
collect_l1 smallest largest [] = ok []
collect_l1 smallest largest (file ∷ files) =
    let rest = collect_l1 smallest largest files in
    if not (file.level == 1)
    then rest
    else if str_lt file.largest_key file.smallest_key
    then err invalid_l1_range
    else if ranges_overlap smallest largest file.smallest_key file.largest_key
    then then_file file rest
    else rest

-- From `l0_files[0]` on. Without a file the C++ is undefined; the trigger is not zero.
pub plan_for :
    List SstableMetadata → List SstableMetadata → Result PolicyError (Option CompactionPlan)
plan_for [] live_files = ok none
plan_for (first ∷ others) live_files =
    let (smallest, largest) = envelope first.smallest_key first.largest_key (first ∷ others) in
    elim (collect_l1 smallest largest live_files) [
      | err e ↦ err e
      | ok l1_files ↦ ok (
          some (record {
            input_files = sort_metadata ((first ∷ others) ++ l1_files);
            output_level = 1;
            can_drop_tombstones = 1 == bottom_level;
          }))
    ]

pub pick_compaction :
    CompactionPolicy → List SstableMetadata → Result PolicyError (Option CompactionPlan)
pick_compaction policy live_files = elim (collect_l0 live_files) [
  | err e ↦ err e
  | ok l0_files ↦
      if ltb (length l0_files) policy.l0_file_trigger then ok none else plan_for l0_files live_files
]
