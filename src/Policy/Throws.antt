-- ===== src/Policy/Throws.antt =====
-- When the policy throws, and which of its exceptions: src/compaction_policy.cpp, `pickCompaction`.
use kronos_engine.Prelude.{
  ℕ, ◌≤◌, ◌<◌, ◌≡◌, ◌≢◌, ◌⊎◌, inl, inr, ◌↔◌, refl, sym, subst, true, false, Option, some, Result,
  ok, err, List, [], ◌∷◌, ◌++◌, Bytes, length, ltb, str_lt, Bool-cases, arith,
}
use kronos_engine.Types.{SstableMetadata, CompactionPlan}
use kronos_engine.Files.{In, sort_metadata}
use kronos_engine.Policy.{
  CompactionPolicy, PolicyError, zero_trigger, invalid_l0_range, invalid_l1_range, count_l0,
  collect_l0, collect_l1, envelope, plan_for, pick_compaction,
}
use kronos_engine.Policy.Picks.{length-collect_l0}

-- Some file of the level has its smallest key past its largest.
abbrev pub UpsideDown : ℕ → List SstableMetadata → Type 0
UpsideDown level live =
    (file : SstableMetadata) × In file live
    × (file.level ≡ level)
    × (str_lt file.largest_key file.smallest_key ≡ true)

UpsideDown-∷ :
    (level : ℕ) (x : SstableMetadata) (live : List SstableMetadata)
    → UpsideDown level (x ∷ live)
      ↔ (((x.level ≡ level) × (str_lt x.largest_key x.smallest_key ≡ true)) ⊎ UpsideDown level live)
UpsideDown-∷ level x live = (
  λ (file, m, at, reversed). elim m [
    | inl e ↦ inl (
        subst
          (λ (f : SstableMetadata).
            (f.level ≡ level) × (str_lt f.largest_key f.smallest_key ≡ true))
          (sym e) (at, reversed))
    | inr k ↦ inr (file, k, at, reversed)
  ],
  λ h. elim h [
    | inl (at, reversed) ↦ (x, inl refl, at, reversed)
    | inr (file, m, at, reversed) ↦ (file, inr m, at, reversed)
  ],
)

-- A loop that collects the files of a level ends, where no file of the level is upside down, and
-- throws its exception where one is.
abbrev Collects :
    ℕ → PolicyError → List SstableMetadata → Result PolicyError (List SstableMetadata) → Type 0
Collects level e live answer =
    ((files : List SstableMetadata) × (answer ≡ ok files) × ¬ UpsideDown level live)
    ⊎ ((answer ≡ err e) × UpsideDown level live)

collect_l0-Collects :
    (live : List SstableMetadata) → Collects 0 invalid_l0_range live (collect_l0 live)
unfolding collect_l0
collect_l0-Collects [] = inl ([], refl, λ (file, m, _, _). m)
collect_l0-Collects (x ∷ live) =
    let both = UpsideDown-∷ 0 x live in
    elim (collect_l0-Collects live) [ inl (files, e, n) ↦ ground arith | inr (e, u) ↦ ground arith ]

collect_l1-Collects :
    (smallest largest : Bytes) (live : List SstableMetadata)
    → Collects 1 invalid_l1_range live (collect_l1 smallest largest live)
unfolding collect_l1
collect_l1-Collects smallest largest [] = inl ([], refl, λ (file, m, _, _). m)
collect_l1-Collects smallest largest (x ∷ live) =
    let both = UpsideDown-∷ 1 x live in
    elim (collect_l1-Collects smallest largest live) [
      | inl (files, e, n) ↦ ground arith
      | inr (e, u) ↦ ground arith
    ]

-- The exceptions of the planning step, for the files of L0 that it is called with.
plan_for_cases :
    (first : SstableMetadata) (others live : List SstableMetadata)
    → ((plan_for (first ∷ others) live ≡ err invalid_l1_range) × UpsideDown 1 live)
      ⊎ ((plan : CompactionPlan) × (plan_for (first ∷ others) live ≡ ok (some plan))
          × ¬ UpsideDown 1 live)
unfolding plan_for
plan_for_cases first others live =
    let range = envelope first.smallest_key first.largest_key (first ∷ others) in
    elim (collect_l1-Collects range.0 range.1 live) [
      | inr (e, u) ↦ inl (rw (e, plan_for) refl, u)
      | inl (files, e, n) ↦ inr (
        record {
          input_files = sort_metadata ((first ∷ others) ++ files);
          output_level = 1;
          can_drop_tombstones = true;
        },
        rw (e, plan_for) refl,
        n,
      )
    ]

-- What `pickCompaction` answers, and on which files.
abbrev pub Throws :
    CompactionPolicy → List SstableMetadata → Result PolicyError (Option CompactionPlan) → Type 0
Throws policy live answer =
    ((answer ≡ err invalid_l0_range) ↔ UpsideDown 0 live)
    × ((answer ≡ err invalid_l1_range)
        ↔ (¬ UpsideDown 0 live × (policy.l0_file_trigger ≤ count_l0 live) × UpsideDown 1 live))
    × (answer ≢ err zero_trigger)

-- The exceptions of the policy, whose trigger is positive, exactly: it throws for L0 where some
-- live file of L0 has its smallest key past its largest, below the trigger too; it throws for L1
-- where none of L0 has, the files of L0 reach the trigger, and some live file of L1 has, whether it
-- meets the range of L0 or not; and it throws nothing else.
pub pick_compaction-Throws :
    (policy : CompactionPolicy) (live : List SstableMetadata)
    → 0 < policy.l0_file_trigger
    → Throws policy live (pick_compaction policy live)
unfolding pick_compaction
pick_compaction-Throws policy live positive = elim (collect_l0-Collects live) [
  | inr (e, u) ↦ ground arith
  | inl (l0, e, n) ↦
      let same = length-collect_l0 live l0 e in
      elim (Bool-cases (ltb (length l0) policy.l0_file_trigger)) [
        | inl few ↦ ground arith
        | inr enough ↦ planned l0 e n same enough
      ]
]
  where
    planned :
        (l0 : List SstableMetadata)
        → collect_l0 live ≡ ok l0
        → ¬ UpsideDown 0 live
        → length l0 ≡ count_l0 live
        → ltb (length l0) policy.l0_file_trigger ≡ false
        → Throws policy live (pick_compaction policy live)
    planned [] e n same enough = absurd (ground arith)
    planned (first ∷ others) e n same enough = elim (plan_for_cases first others live) [
      | inl (k, u) ↦ ground arith
      | inr (plan, k, none_up) ↦ ground arith
    ]
