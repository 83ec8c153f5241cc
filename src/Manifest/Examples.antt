-- ===== src/Manifest/Examples.antt =====
-- The theorems on the manifest at a compaction of one file into another.
use kronos_engine.Prelude.{◌≡◌, inl, inr, refl, subst, none, some, ok, [], ◌∷◌, compare_bytes}
use kronos_engine.Types.{SstableMetadata, ManifestEdit}
use kronos_engine.Files.{insert_file, sort_metadata}
use kronos_engine.Manifest.{
  Snapshot, Manifest, validate_metadata, contains, erase_path, remove_all, add_each,
  advance_checkpoint, next_snapshot, committed, apply_edit,
}
use kronos_engine.Manifest.Edits.{IsSound, IsValid, Next, next_snapshot-Next}
use kronos_engine.Manifest.Commit.{Applied, apply_edit-Applied}

abbrev old_file : SstableMetadata
old_file = record { path = 49 ∷ []; level = 0; smallest_key = 1 ∷ []; largest_key = 4 ∷ [] }

abbrev new_file : SstableMetadata
new_file = record { path = 50 ∷ []; level = 1; smallest_key = 1 ∷ []; largest_key = 4 ∷ [] }

abbrev before : Snapshot
before = record { live_files = old_file ∷ []; persisted_through = some 3 }

abbrev after : Snapshot
after = record { live_files = new_file ∷ []; persisted_through = some 5 }

abbrev edit : ManifestEdit
edit = record {
  remove_files = (49 ∷ []) ∷ [];
  add_files = new_file ∷ [];
  persisted_through = some 5;
}

old_file-IsSound : IsSound (old_file ∷ [])
unfolding validate_metadata compare_bytes
old_file-IsSound file (inl e) = subst (λ f. validate_metadata f ≡ none) e refl
old_file-IsSound file (inr nothing) = absurd nothing

before-IsValid : IsValid before
unfolding contains
before-IsValid = record { ordered = (tt, tt); distinct = (refl, tt); sound = old_file-IsSound }

leads : next_snapshot edit before ≡ ok after
unfolding next_snapshot remove_all erase_path add_each validate_metadata contains advance_checkpoint
    sort_metadata insert_file compare_bytes
leads = refl

next_snapshot-Next_example : Next edit before after
next_snapshot-Next_example = next_snapshot-Next edit before after before-IsValid leads

abbrev manifest : Manifest
manifest = record { memory = before; disk = before }

apply_edit-Applied_example : Applied edit manifest committed (apply_edit edit manifest committed)
apply_edit-Applied_example = apply_edit-Applied edit manifest committed before-IsValid
