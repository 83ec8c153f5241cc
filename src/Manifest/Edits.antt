-- ===== src/Manifest/Edits.antt =====
-- What an edit does to the set of live files and to the checkpoint.
use kronos_engine.Prelude.{
  ℕ, ◌≤◌, ◌≡◌, ◌⊎◌, inl, inr, ◌↔◌, refl, ◌∙◌, sym, subst, false, Option, none, some, ok, err, List,
  [], ◌∷◌, ◌++◌, Bytes, str_eq, Bool-cases, Option-cases, Result-cases, All, arith,
}
use kronos_engine.Types.{SstableMetadata, ManifestEdit}
use kronos_engine.Files.{sort_metadata, In}
use kronos_engine.Files.Sorting.{In-sort_metadata, In-append, IsOrdered, sort_metadata-IsOrdered}
use kronos_engine.Manifest.{
  duplicate_file, Snapshot, validate_metadata, contains, erase_path, remove_all, add_each,
  advance_checkpoint, next_snapshot,
}
use kronos_engine.Manifest.Paths.{
  IsDistinct, sort_metadata-IsDistinct, append-IsDistinct, erase_path-IsDistinct, In-erase_path,
}

-- No path of the list is the file's.
abbrev pub Kept : SstableMetadata → List Bytes → Type 0
Kept file paths = All (λ path. str_eq file.path path ≡ false) paths

remove_all-IsDistinct :
    (paths : List Bytes) (state kept : List SstableMetadata)
    → IsDistinct state
    → remove_all paths state ≡ ok kept
    → IsDistinct kept
unfolding remove_all
remove_all-IsDistinct [] state kept d h = ground arith
remove_all-IsDistinct (path ∷ paths) state kept d h = ground (
  arith,
  remove_all-IsDistinct paths (erase_path path state) kept (erase_path-IsDistinct path state d),
)

In-remove_all :
    (file : SstableMetadata) (paths : List Bytes) (state kept : List SstableMetadata)
    → remove_all paths state ≡ ok kept
    → In file kept ↔ (In file state × Kept file paths)
unfolding remove_all
In-remove_all file [] state kept h = ground arith
In-remove_all file (path ∷ paths) state kept h =
    ground
      (arith, In-remove_all file paths (erase_path path state) kept, In-erase_path file path state)

-- Every file has a path and a range.
abbrev pub IsSound : List SstableMetadata → Type 0
IsSound files = (file : SstableMetadata) → In file files → validate_metadata file ≡ none

append-IsSound :
    (state : List SstableMetadata) (x : SstableMetadata)
    → IsSound state
    → validate_metadata x ≡ none
    → IsSound (state ++ x ∷ [])
append-IsSound state x s v file m = elim ((In-append file state (x ∷ [])).0 m) [
  | inl before ↦ s file before
  | inr (inl e) ↦ subst (λ f. validate_metadata f ≡ none) e v
  | inr (inr nothing) ↦ absurd nothing
]

-- What the loop over the new files keeps and adds.
record Added (adds state files : List SstableMetadata) : Type 0 where
  distinct : IsDistinct files
  sound : IsSound files
  both : (file : SstableMetadata) → In file files ↔ (In file state ⊎ In file adds)

add_each-Added :
    (adds state files : List SstableMetadata)
    → IsDistinct state
    → IsSound state
    → add_each adds state ≡ ok files
    → Added adds state files
unfolding add_each
add_each-Added [] state files d s h =
    let same : state ≡ files = ground arith in
    subst (Added [] state) same (record {
      distinct = d;
      sound = s;
      both = λ file. (λ m. inl m, λ m. elim m [ inl k ↦ k | inr nothing ↦ absurd nothing ]);
    })
add_each-Added (x ∷ adds) state files d s h = elim (Option-cases (validate_metadata x)) [
  | inr (e, v) ↦
      let thrown : add_each (x ∷ adds) state ≡ err e = rw (v, add_each) refl in
      absurd (cc (thrown, h))
  | inl v ↦ elim (Bool-cases (contains x.path state)) [
    | inl there ↦
        let thrown : add_each (x ∷ adds) state ≡ err duplicate_file =
          rw (v, there, add_each) refl in
        absurd (cc (thrown, h))
    | inr new ↦
        let step : add_each (x ∷ adds) state ≡ add_each adds (state ++ x ∷ []) =
          rw (v, new, add_each) refl in
        let a =
          add_each-Added adds (state ++ x ∷ []) files (append-IsDistinct state x new d)
            (append-IsSound state x s v) (sym step ∙ h) in
        record {
          distinct = a.distinct;
          sound = a.sound;
          both = λ file. ground (arith, a.both file, In-append file state (x ∷ []));
        }
  ]
]

-- A snapshot that may be committed.
pub record IsValid (s : Snapshot) : Type 0 where
  pub ordered : IsOrdered s.live_files
  pub distinct : IsDistinct s.live_files
  pub sound : IsSound s.live_files

-- The second checkpoint is not behind the first.
abbrev pub NotBehind : Option ℕ → Option ℕ → Type 0
NotBehind none c = Unit {0}
NotBehind (some n) none = ⊥
NotBehind (some n) (some m) = n ≤ m

-- What an edit asks of the next snapshot.
pub record Next (edit : ManifestEdit) (s next : Snapshot) : Type 0 where
  pub files :
      (file : SstableMetadata)
      → In file next.live_files
        ↔ ((In file s.live_files × Kept file edit.remove_files) ⊎ In file edit.add_files)
  pub valid : IsValid next
  pub forward : NotBehind s.persisted_through next.persisted_through
  pub checkpoint :
      next.persisted_through
      ≡ (elim edit.persisted_through [ none ↦ s.persisted_through | some n ↦ some n ])

advance_checkpoint-NotBehind :
    (asked current next : Option ℕ)
    → advance_checkpoint asked current ≡ ok next
    → NotBehind current next × (next ≡ (elim asked [ none ↦ current | some n ↦ some n ]))
unfolding advance_checkpoint
advance_checkpoint-NotBehind none none next h = ground arith
advance_checkpoint-NotBehind none (some c) next h = ground arith
advance_checkpoint-NotBehind (some n) none next h = ground arith
advance_checkpoint-NotBehind (some n) (some c) next h = ground arith

remove_all-IsSound :
    (paths : List Bytes) (state kept : List SstableMetadata)
    → IsSound state
    → remove_all paths state ≡ ok kept
    → IsSound kept
remove_all-IsSound paths state kept s h file m =
    s file ((In-remove_all file paths state kept h).0 m).0

-- An edit that is not rejected leads from a valid snapshot to a valid one: of exactly the live files
-- whose paths it does not remove and those that it adds, ordered, with distinct paths, each with a
-- path and a range. The checkpoint is the edit's, or stays where it has none, and never moves back.
pub next_snapshot-Next :
    (edit : ManifestEdit) (s next : Snapshot)
    → IsValid s
    → next_snapshot edit s ≡ ok next
    → Next edit s next
unfolding next_snapshot
next_snapshot-Next edit s next v h =
    elim (Result-cases (remove_all edit.remove_files s.live_files)) [
      | inr (e, k) ↦
          let thrown : next_snapshot edit s ≡ err e = rw (k, next_snapshot) refl in
          absurd (cc (thrown, h))
      | inl (kept, k) ↦ elim (Result-cases (add_each edit.add_files kept)) [
        | inr (e, m) ↦
            let thrown : next_snapshot edit s ≡ err e = rw (k, m, next_snapshot) refl in
            absurd (cc (thrown, h))
        | inl (files, m) ↦
            elim (Result-cases (advance_checkpoint edit.persisted_through s.persisted_through)) [
              | inr (e, n) ↦
                  let thrown : next_snapshot edit s ≡ err e = rw (k, m, n, next_snapshot) refl in
                  absurd (cc (thrown, h))
              | inl (checkpoint, n) ↦
                  let made : Snapshot = record {
                    live_files = sort_metadata files;
                    persisted_through = checkpoint;
                  } in
                  let result : next_snapshot edit s ≡ ok made = rw (k, m, n, next_snapshot) refl in
                  subst (Next edit s) (cc (result, h)) (made-Next kept files checkpoint k m n)
            ]
      ]
    ]
  where
    made-Next :
        (kept files : List SstableMetadata) (checkpoint : Option ℕ)
        → remove_all edit.remove_files s.live_files ≡ ok kept
        → add_each edit.add_files kept ≡ ok files
        → advance_checkpoint edit.persisted_through s.persisted_through ≡ ok checkpoint
        → Next edit s (record { live_files = sort_metadata files; persisted_through = checkpoint })
    made-Next kept files checkpoint k m n =
        let a =
          add_each-Added edit.add_files kept files
            (remove_all-IsDistinct edit.remove_files s.live_files kept v.distinct k)
            (remove_all-IsSound edit.remove_files s.live_files kept v.sound k) m in
        let (forward, same) =
          advance_checkpoint-NotBehind edit.persisted_through s.persisted_through checkpoint n in
        record {
          files = λ file. ground (
            arith,
            In-sort_metadata file files,
            a.both file,
            In-remove_all file edit.remove_files s.live_files kept k,
          );
          valid = record {
            ordered = sort_metadata-IsOrdered files;
            distinct = sort_metadata-IsDistinct files a.distinct;
            sound = λ file i. a.sound file ((In-sort_metadata file files).0 i);
          };
          forward = forward;
          checkpoint = same;
        }
