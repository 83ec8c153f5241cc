-- ===== src/Policy/Separation.antt =====
-- A file that a plan leaves in L1 has no key in common with what the compaction writes there.
use kronos_engine.Prelude.{
  ◌<◌, ◌≡◌, ◌⊎◌, inl, inr, subst, some, ok, List, Bytes, ◌≺◌, gt_of_lt, arith,
}
use kronos_engine.Types.{SstableMetadata, CompactionPlan}
use kronos_engine.Files.{In}
use kronos_engine.Policy.{CompactionPolicy, pick_compaction}
use kronos_engine.Policy.Ranges.{◌≼◌, ≼_trans}
use kronos_engine.Policy.Picks.{Picked, plans, pick_compaction-Answer}

-- One range ends before the other begins.
abbrev pub Apart : SstableMetadata → SstableMetadata → Type 0
Apart a b = (a.largest_key ≺ b.smallest_key) ⊎ (b.largest_key ≺ a.smallest_key)

-- Every file has a range, and the files of L1 are apart from each other.
pub record IsSeparated (live : List SstableMetadata) : Type 0 where
  pub ranges : (file : SstableMetadata) → In file live → file.smallest_key ≼ file.largest_key
  pub apart :
      (a b : SstableMetadata)
      → In a live × (a.level ≡ 1)
      → In b live × (b.level ≡ 1)
      → (a ≡ b) ⊎ Apart a b

weaken : (a b : Bytes) → a ≺ b → a ≼ b
weaken a b h = ground (arith, gt_of_lt a b)

not_both : (a b : Bytes) → a ≺ b → b ≼ a → ⊥
not_both a b h k = ground arith

module _ (live : List SstableMetadata) (s : IsSeparated live) (file : SstableMetadata)
    (in_live : In file live) (level : file.level ≡ 1) (left : ¬ Picked live file) where
  -- An input that reaches down to the file's keys comes with one of L0 that does.
  low_of_l0 :
      (a : SstableMetadata)
      → Picked live a
      → a.smallest_key ≼ file.largest_key
      → (c : SstableMetadata) × (In c live × (c.level ≡ 0)) × (c.smallest_key ≼ file.largest_key)
  low_of_l0 a (in_a, inl zero_level) h = (a, (in_a, zero_level), h)
  low_of_l0 a (in_a, inr (one, meets)) h = elim (s.apart a file (in_a, one) (in_live, level)) [
    | inl e ↦ absurd (left (subst (Picked live) e (in_a, inr (one, meets))))
    | inr (inl before) ↦
        let (c, d, in_c, in_d, lower, upper) = meets in
        (
          c,
          in_c,
          ≼_trans c.smallest_key a.largest_key file.largest_key lower (
              ≼_trans a.largest_key file.smallest_key file.largest_key (weaken _ _ before)
                (s.ranges file in_live)),
        )
    | inr (inr after) ↦ absurd (not_both _ _ after h)
  ]

  high_of_l0 :
      (b : SstableMetadata)
      → Picked live b
      → file.smallest_key ≼ b.largest_key
      → (d : SstableMetadata) × (In d live × (d.level ≡ 0)) × (file.smallest_key ≼ d.largest_key)
  high_of_l0 b (in_b, inl zero_level) h = (b, (in_b, zero_level), h)
  high_of_l0 b (in_b, inr (one, meets)) h = elim (s.apart b file (in_b, one) (in_live, level)) [
    | inl e ↦ absurd (left (subst (Picked live) e (in_b, inr (one, meets))))
    | inr (inl before) ↦ absurd (not_both _ _ before h)
    | inr (inr after) ↦
        let (c, d, in_c, in_d, lower, upper) = meets in
        (
          d,
          in_d,
          ≼_trans file.smallest_key file.largest_key d.largest_key (s.ranges file in_live)
              (≼_trans file.largest_key b.smallest_key d.largest_key (weaken _ _ after) upper),
        )
  ]

  outside :
      (a b : SstableMetadata)
      → Picked live a
      → Picked live b
      → ¬ ((a.smallest_key ≼ file.largest_key) × (file.smallest_key ≼ b.largest_key))
  outside a b p q (lower, upper) =
      let (c, in_c, low) = low_of_l0 a p lower in
      let (d, in_d, high) = high_of_l0 b q upper in
      left (in_live, inr (level, (c, d, in_c, in_d, low, high)))

-- Where the files of L1 are apart and every file has a range: a file of L1 that the plan leaves
-- does not meet the range from the smallest key of any input to the largest key of any input. So
-- it stays apart from the output in L1, and holds no version of a key whose tombstone is dropped.
pub pick_compaction-separates :
    (policy : CompactionPolicy) (live : List SstableMetadata) (plan : CompactionPlan)
    (file a b : SstableMetadata)
    → 0 < policy.l0_file_trigger
    → IsSeparated live
    → pick_compaction policy live ≡ ok (some plan)
    → In file live × (file.level ≡ 1)
    → ¬ In file plan.input_files
    → In a plan.input_files
    → In b plan.input_files
    → ¬ ((a.smallest_key ≼ file.largest_key) × (file.smallest_key ≼ b.largest_key))
pick_compaction-separates policy live plan file a b positive s h (in_live, level) left in_a in_b =
    elim (pick_compaction-Answer policy live (some plan) positive h) [
      | plans enough p ↦
          outside live s file in_live level (λ q. left ((p.picked file).1 q)) a b
            ((p.picked a).0 in_a) ((p.picked b).0 in_b)
    ]
