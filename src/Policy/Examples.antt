-- ===== src/Policy/Examples.antt =====
-- The theorems on the policy at two files of L0 and two of L1, with a trigger of two.
use kronos_engine.Prelude.{
  ℕ, ◌≡◌, ◌⊎◌, inl, inr, refl, ap, subst, sym, ◌∙◌, true, none, some, ok, err, List, [], ◌∷◌,
  compare_bytes, arith,
}
use kronos_engine.Types.{SstableMetadata, CompactionPlan}
use kronos_engine.Files.{In, file_precedes, insert_file, sort_metadata}
use kronos_engine.Policy.{
  CompactionPolicy, invalid_l1_range, ranges_overlap, collect_l0, envelope, collect_l1, plan_for,
  pick_compaction,
}
use kronos_engine.Policy.Ranges.{◌≼◌}
use kronos_engine.Policy.Throws.{Throws, pick_compaction-Throws}
use kronos_engine.Policy.Picks.{Answer, pick_compaction-Answer}
use kronos_engine.Policy.Separation.{IsSeparated, Apart, pick_compaction-separates}

abbrev file_of : ℕ → ℕ → ℕ → ℕ → SstableMetadata
file_of name level low high = record {
  path = name ∷ [];
  level = level;
  smallest_key = low ∷ [];
  largest_key = high ∷ [];
}

abbrev two : CompactionPolicy
two = record { l0_file_trigger = 2 }

abbrev live : List SstableMetadata
live = file_of 1 1 1 2 ∷ file_of 4 0 4 6 ∷ file_of 2 1 5 7 ∷ file_of 3 0 2 3 ∷ file_of 5 1 9 9 ∷ []

abbrev plan : CompactionPlan
plan = record {
  input_files = file_of 3 0 2 3 ∷ file_of 4 0 4 6 ∷ file_of 1 1 1 2 ∷ file_of 2 1 5 7 ∷ [];
  output_level = 1;
  can_drop_tombstones = true;
}

picks_plan : pick_compaction two live ≡ ok (some plan)
unfolding pick_compaction plan_for collect_l0 collect_l1 envelope ranges_overlap sort_metadata
    insert_file file_precedes compare_bytes
picks_plan = refl

pick_compaction-Answer_example : Answer two live (some plan)
pick_compaction-Answer_example =
    pick_compaction-Answer two live (some plan) (omega arith) picks_plan

-- One file of L0, one of L1 that meets it, and one of L1 that does not.
abbrev few : List SstableMetadata
few = file_of 3 0 4 6 ∷ file_of 1 1 5 7 ∷ file_of 2 1 9 9 ∷ []

abbrev one : CompactionPolicy
one = record { l0_file_trigger = 1 }

abbrev small_plan : CompactionPlan
small_plan = record {
  input_files = file_of 3 0 4 6 ∷ file_of 1 1 5 7 ∷ [];
  output_level = 1;
  can_drop_tombstones = true;
}

picks_small : pick_compaction one few ≡ ok (some small_plan)
unfolding pick_compaction plan_for collect_l0 collect_l1 envelope ranges_overlap sort_metadata
    insert_file file_precedes compare_bytes
picks_small = refl

few-ranges : (file : SstableMetadata) → In file few → file.smallest_key ≼ file.largest_key
unfolding compare_bytes
few-ranges file (inl e) = subst (λ (f : SstableMetadata). f.smallest_key ≼ f.largest_key) e refl
few-ranges file (inr (inl e)) =
    subst (λ (f : SstableMetadata). f.smallest_key ≼ f.largest_key) e refl
few-ranges file (inr (inr (inl e))) =
    subst (λ (f : SstableMetadata). f.smallest_key ≼ f.largest_key) e refl
few-ranges file (inr (inr (inr nothing))) = absurd nothing

-- A file of L1 among them is one of two.
few-l1 :
    (file : SstableMetadata)
    → In file few × (file.level ≡ 1)
    → (file_of 1 1 5 7 ≡ file) ⊎ (file_of 2 1 9 9 ≡ file)
few-l1 file (inl e, level) = absurd (omega (arith, ap (λ (f : SstableMetadata). f.level) e, level))
few-l1 file (inr (inl e), level) = inl e
few-l1 file (inr (inr (inl e)), level) = inr e
few-l1 file (inr (inr (inr nothing)), level) = absurd nothing

few-Apart :
    (a b : SstableMetadata)
    → (file_of 1 1 5 7 ≡ a) ⊎ (file_of 2 1 9 9 ≡ a)
    → (file_of 1 1 5 7 ≡ b) ⊎ (file_of 2 1 9 9 ≡ b)
    → (a ≡ b) ⊎ Apart a b
unfolding compare_bytes
few-Apart a b (inl e) (inl h) = inl (sym e ∙ h)
few-Apart a b (inl e) (inr h) =
    subst (λ x. (x ≡ b) ⊎ Apart x b) e
      (subst (λ y. (file_of 1 1 5 7 ≡ y) ⊎ Apart (file_of 1 1 5 7) y) h (inr (inl refl)))
few-Apart a b (inr e) (inl h) =
    subst (λ x. (x ≡ b) ⊎ Apart x b) e
      (subst (λ y. (file_of 2 1 9 9 ≡ y) ⊎ Apart (file_of 2 1 9 9) y) h (inr (inr refl)))
few-Apart a b (inr e) (inr h) = inl (sym e ∙ h)

few-IsSeparated : IsSeparated few
few-IsSeparated = record {
  ranges = few-ranges;
  apart = λ a b h k. few-Apart a b (few-l1 a h) (few-l1 b k);
}

not_picked : ¬ In (file_of 2 1 9 9) small_plan.input_files
not_picked (inl e) = omega (arith, ap (λ (f : SstableMetadata). f.level) e)
not_picked (inr (inl e)) = cc e
not_picked (inr (inr nothing)) = nothing

pick_compaction-separates_example : ¬ (
    ((file_of 3 0 4 6).smallest_key ≼ (file_of 2 1 9 9).largest_key)
    × ((file_of 2 1 9 9).smallest_key ≼ (file_of 1 1 5 7).largest_key))
pick_compaction-separates_example =
    pick_compaction-separates one few small_plan (file_of 2 1 9 9) (file_of 3 0 4 6)
      (file_of 1 1 5 7) (omega arith) few-IsSeparated picks_small (inr (inr (inl refl)), refl)
      not_picked (inl refl) (inr (inl refl))

-- One file of L0, and one of L1 with its smallest key past its largest, apart from it.
abbrev reversed : List SstableMetadata
reversed = file_of 3 0 4 6 ∷ file_of 1 1 9 8 ∷ []

throws_reversed : pick_compaction one reversed ≡ err invalid_l1_range
unfolding pick_compaction plan_for collect_l0 collect_l1 envelope compare_bytes
throws_reversed = refl

waits_reversed : pick_compaction two reversed ≡ ok none
unfolding pick_compaction collect_l0 compare_bytes
waits_reversed = refl

pick_compaction-Throws_example : Throws one reversed (pick_compaction one reversed)
pick_compaction-Throws_example = pick_compaction-Throws one reversed (omega arith)
