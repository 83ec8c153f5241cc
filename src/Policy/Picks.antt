-- ===== src/Policy/Picks.antt =====
-- What a plan takes: all of L0, and of L1 the files that meet the range of L0.
use kronos_engine.Prelude.{
  ◌<◌, ◌≡◌, ◌⊎◌, inl, inr, ◌↔◌, refl, ap, subst, Bool, true, false, Option, none, some, ok, err,
  List, [], ◌∷◌, ◌++◌, Bytes, length, ltb, Result-cases, arith,
}
use kronos_engine.Types.{SstableMetadata, CompactionPlan}
use kronos_engine.Files.{sort_metadata, In}
use kronos_engine.Files.Sorting.{In-sort_metadata, In-append, IsOrdered, sort_metadata-IsOrdered}
use kronos_engine.Policy.Ranges.{◌≼◌, Meets, ranges_overlap-Meets, Meets-files}
use kronos_engine.Policy.{
  CompactionPolicy, count_l0, should_compact, collect_l0, envelope, collect_l1, plan_for,
  pick_compaction,
}

In-collect_l0 :
    (live l0 : List SstableMetadata) (file : SstableMetadata)
    → collect_l0 live ≡ ok l0
    → In file l0 ↔ ((file.level ≡ 0) × In file live)
unfolding collect_l0
In-collect_l0 [] l0 file h = ground arith
In-collect_l0 (x ∷ live) l0 file h = elim (Result-cases (collect_l0 live)) [
  | inl (files, e) ↦
      ground (arith, In-collect_l0 live files file e, ap (λ (f : SstableMetadata). f.level))
  | inr (p, e) ↦ ground arith
]

In-collect_l1 :
    (smallest largest : Bytes) (live l1 : List SstableMetadata) (file : SstableMetadata)
    → collect_l1 smallest largest live ≡ ok l1
    → In file l1 ↔ ((file.level ≡ 1) × Meets smallest largest file × In file live)
unfolding collect_l1
In-collect_l1 smallest largest [] l1 file h = ground arith
In-collect_l1 smallest largest (x ∷ live) l1 file h =
    elim (Result-cases (collect_l1 smallest largest live)) [
      | inl (files, e) ↦ ground (
        arith,
        In-collect_l1 smallest largest live files file e,
        ranges_overlap-Meets smallest largest x,
      )
      | inr (p, e) ↦ ground arith
    ]

-- The range of the files of L0 meets the file.
abbrev pub MeetsL0 : List SstableMetadata → SstableMetadata → Type 0
MeetsL0 live file =
    (a : SstableMetadata) × (b : SstableMetadata) × (In a live × (a.level ≡ 0))
    × (In b live × (b.level ≡ 0))
    × (a.smallest_key ≼ file.largest_key)
    × (file.smallest_key ≼ b.largest_key)

-- A file of a plan, by the description of the strategy alone.
abbrev pub Picked : List SstableMetadata → SstableMetadata → Type 0
Picked live file = In file live × ((file.level ≡ 0) ⊎ ((file.level ≡ 1) × MeetsL0 live file))

pub length-collect_l0 :
    (live l0 : List SstableMetadata) → collect_l0 live ≡ ok l0 → length l0 ≡ count_l0 live
unfolding collect_l0 count_l0
length-collect_l0 [] l0 h = ground arith
length-collect_l0 (x ∷ live) l0 h = elim (Result-cases (collect_l0 live)) [
  | inl (files, e) ↦ ground (arith, length-collect_l0 live files e)
  | inr (p, e) ↦ ground arith
]

-- What a plan holds.
pub record IsPlan (live : List SstableMetadata) (plan : CompactionPlan) : Type 0 where
  pub picked : (file : SstableMetadata) → In file plan.input_files ↔ Picked live file
  pub ordered : IsOrdered plan.input_files
  pub to_l1 : plan.output_level ≡ 1
  pub drops : plan.can_drop_tombstones ≡ true

planned-IsPlan :
    (live l1 : List SstableMetadata) (first : SstableMetadata) (others : List SstableMetadata)
    → collect_l0 live ≡ ok (first ∷ others)
    → collect_l1
        (envelope first.smallest_key first.largest_key (first ∷ others)).0
        (envelope first.smallest_key first.largest_key (first ∷ others)).1
        live
      ≡ ok l1
    → IsPlan live (record {
      input_files = sort_metadata ((first ∷ others) ++ l1);
      output_level = 1;
      can_drop_tombstones = true;
    })
planned-IsPlan live l1 first others h k = record {
  picked = λ file. (to file, from file);
  ordered = sort_metadata-IsOrdered ((first ∷ others) ++ l1);
  to_l1 = refl;
  drops = refl;
}
  where
    range : Bytes × Bytes
    range = envelope first.smallest_key first.largest_key (first ∷ others)

    from_l0 : (a : SstableMetadata) → In a (first ∷ others) → In a live × (a.level ≡ 0)
    from_l0 a m =
        let (level, in_live) = (In-collect_l0 live (first ∷ others) a h).0 m in (in_live, level)

    to :
        (file : SstableMetadata)
        → In file (sort_metadata ((first ∷ others) ++ l1))
        → Picked live file
    to file m =
        elim ((In-append file (first ∷ others) l1).0
          ((In-sort_metadata file ((first ∷ others) ++ l1)).0 m)) [
            | inl m₀ ↦ let (in_live, level) = from_l0 file m₀ in (in_live, inl level)
            | inr m₁ ↦
                let (level, meets, in_live) = (In-collect_l1 range.0 range.1 live l1 file k).0 m₁ in
                let (a, b, in_a, in_b, lower, upper) = (Meets-files first others file).0 meets in
                (in_live, inr (level, (a, b, from_l0 a in_a, from_l0 b in_b, lower, upper)))
          ]

    from :
        (file : SstableMetadata)
        → Picked live file
        → In file (sort_metadata ((first ∷ others) ++ l1))
    from file (in_live, which) = (In-sort_metadata file ((first ∷ others) ++ l1)).1 (
        (In-append file (first ∷ others) l1).1 (elim which [
          | inl level ↦ inl ((In-collect_l0 live (first ∷ others) file h).1 (level, in_live))
          | inr (level, (a, b, (in_a, level_a), (in_b, level_b), lower, upper)) ↦ inr (
              (In-collect_l1 range.0 range.1 live l1 file k).1 (
                level,
                (Meets-files first others file).1 (
                  a,
                  b,
                  (In-collect_l0 live (first ∷ others) a h).1 (level_a, in_a),
                  (In-collect_l0 live (first ∷ others) b h).1 (level_b, in_b),
                  lower,
                  upper,
                ),
                in_live,
              ))
        ]))

-- What an answer of `pickCompaction` that is no exception says.
pub data Answer (policy : CompactionPolicy) (live : List SstableMetadata)
    : Option CompactionPlan → Type 0 where
  waits : should_compact policy live ≡ false → Answer policy live none
  plans :
      {plan : CompactionPlan}
      → should_compact policy live ≡ true
      → IsPlan live plan
      → Answer policy live (some plan)

-- Where the policy does not throw, it makes a plan if and only if there are as many files in L0 as
-- the trigger asks. The plan takes a live file if and only if it is in L0, or it is in L1 and meets
-- the key range from the smallest key to the largest key of L0. The files are ordered by level and
-- path, the output is for L1, and tombstones may be dropped.
pub pick_compaction-Answer :
    (policy : CompactionPolicy) (live : List SstableMetadata) (answer : Option CompactionPlan)
    → 0 < policy.l0_file_trigger
    → pick_compaction policy live ≡ ok answer
    → Answer policy live answer
unfolding pick_compaction plan_for should_compact
pick_compaction-Answer policy live answer positive h = elim (Result-cases (collect_l0 live)) [
  | inr (e, k) ↦
      let thrown : pick_compaction policy live ≡ err e = rw (k, pick_compaction) refl in
      absurd (cc (thrown, h))
  | inl (files, k) ↦ go files k (ltb (length files) policy.l0_file_trigger) refl
]
  where
    planned :
        (first : SstableMetadata) (others : List SstableMetadata)
        → collect_l0 live ≡ ok (first ∷ others)
        → ltb (length (first ∷ others)) policy.l0_file_trigger ≡ false
        → Answer policy live answer
    planned first others k e =
        let range = envelope first.smallest_key first.largest_key (first ∷ others) in
        elim (Result-cases (collect_l1 range.0 range.1 live)) [
          | inr (x, m) ↦
              let thrown : pick_compaction policy live ≡ err x =
                rw (k, e, m, pick_compaction, plan_for) refl in
              absurd (cc (thrown, h))
          | inl (l1, m) ↦
              let plan : CompactionPlan = record {
                input_files = sort_metadata ((first ∷ others) ++ l1);
                output_level = 1;
                can_drop_tombstones = true;
              } in
              let result : pick_compaction policy live ≡ ok (some plan) =
                rw (k, e, m, pick_compaction, plan_for) refl in
              let enough : should_compact policy live ≡ true =
                ground (arith, length-collect_l0 live (first ∷ others) k) in
              subst (Answer policy live) (cc (result, h))
                (plans enough (planned-IsPlan live l1 first others k m))
        ]

    go :
        (files : List SstableMetadata)
        → collect_l0 live ≡ ok files
        → (short : Bool) → ltb (length files) policy.l0_file_trigger ≡ short
        → Answer policy live answer
    go files k true e =
        let result : pick_compaction policy live ≡ ok none = rw (k, e, pick_compaction) refl in
        let few : should_compact policy live ≡ false =
          ground (arith, length-collect_l0 live files k) in
        subst (Answer policy live) (cc (result, h)) (waits few)
    go [] k false e = absurd (ground arith)
    go (first ∷ others) k false e = planned first others k e
