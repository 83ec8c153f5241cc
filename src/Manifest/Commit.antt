-- ===== src/Manifest/Commit.antt =====
-- The commit of an edit: what the path and the object hold, whatever the file system answers.
use kronos_engine.Prelude.{
  ◌≡◌, ◌≢◌, ◌⊎◌, inl, inr, refl, ap, Option, none, some, Result, ok, err, List, [], ◌∷◌,
  Result-cases, arith,
}
use kronos_engine.Types.{SstableMetadata, ManifestEdit}
use kronos_engine.Manifest.{
  ManifestError, not_written, not_committed, directory_not_synced, process_stopped, Snapshot,
  Manifest, validate_all, next_snapshot, CommitReturn, write_fails, stops_before, rename_fails,
  stops_after, directory_fails, committed, persist_snapshot, apply_edit,
}
use kronos_engine.Manifest.Edits.{IsSound, IsValid, Next, next_snapshot-Next}

validate_all-IsSound : (files : List SstableMetadata) → IsSound files → validate_all files ≡ none
unfolding validate_all
validate_all-IsSound [] s = refl
validate_all-IsSound (x ∷ files) s =
    ground (arith, s x (inl refl), validate_all-IsSound files (λ file m. s file (inr m)))

-- How an edit may end, by the answer of the file system: the object and the path after it, and the
-- exception.
pub data Applied (edit : ManifestEdit) (m : Manifest)
    : CommitReturn → Manifest × Result ManifestError (Unit {0}) → Type 0 where
  -- nothing was written
  rejected :
      (answer : CommitReturn) (e : ManifestError)
      → next_snapshot edit m.memory ≡ err e
      → Applied edit m answer (m, err e)
  -- the old snapshot stays in both places
  uncommitted :
      (answer : CommitReturn) (e : ManifestError)
      → answer ≢ committed
      → Applied edit m answer (m, err e)
  -- the path holds the next snapshot and the object the old one
  unpublished :
      (answer : CommitReturn) (next : Snapshot) (e : ManifestError)
      → Next edit m.memory next
      → (answer ≡ stops_after) ⊎ (answer ≡ directory_fails)
      → Applied edit m answer (record m { disk = next }, err e)
  applied :
      (next : Snapshot)
      → Next edit m.memory next
      → Applied edit m committed (record { memory = next; disk = next }, ok tt)

module _ (edit : ManifestEdit) (m : Manifest) (next : Snapshot) (n : Next edit m.memory next)
    (h : next_snapshot edit m.memory ≡ ok next) where
  sound : validate_all next.live_files ≡ none
  sound = validate_all-IsSound next.live_files n.valid.sound

  threw :
      (answer : CommitReturn) (disk : Snapshot) (e : ManifestError)
      → persist_snapshot next m.disk answer ≡ (disk, some e)
      → apply_edit edit m answer ≡ (record m { disk = disk }, err e)
  unfolding apply_edit
  threw answer disk e p =
      rw (h, p, apply_edit)
        (ap (λ (q : Snapshot × Option ManifestError). (record m { disk = q.0 }, err e)) p)

  returned :
      (answer : CommitReturn) (disk : Snapshot)
      → persist_snapshot next m.disk answer ≡ (disk, none)
      → apply_edit edit m answer ≡ (record { memory = next; disk = disk }, ok tt)
  unfolding apply_edit
  returned answer disk p =
      rw (h, p, apply_edit)
        (ap (λ (q : Snapshot × Option ManifestError). (record { memory = next; disk = q.0 }, ok tt))
          p)

  commit-Applied : (answer : CommitReturn) → Applied edit m answer (apply_edit edit m answer)
  unfolding persist_snapshot
  commit-Applied write_fails =
      rw (threw write_fails m.disk not_written (rw (sound, persist_snapshot) refl))
        (uncommitted write_fails not_written (λ e. cc e))
  commit-Applied stops_before =
      rw (threw stops_before m.disk process_stopped (rw (sound, persist_snapshot) refl))
        (uncommitted stops_before process_stopped (λ e. cc e))
  commit-Applied rename_fails =
      rw (threw rename_fails m.disk not_committed (rw (sound, persist_snapshot) refl))
        (uncommitted rename_fails not_committed (λ e. cc e))
  commit-Applied stops_after =
      rw (threw stops_after next process_stopped (rw (sound, persist_snapshot) refl))
        (unpublished stops_after next process_stopped n (inl refl))
  commit-Applied directory_fails =
      rw (threw directory_fails next directory_not_synced (rw (sound, persist_snapshot) refl))
        (unpublished directory_fails next directory_not_synced n (inr refl))
  commit-Applied committed =
      rw (returned committed next (rw (sound, persist_snapshot) refl)) (applied next n)

-- An edit of a manifest with a valid snapshot in memory is all or nothing on the path, whatever the
-- file system answers: the path keeps what it held, and then the object stays and the edit throws;
-- or it holds the next snapshot that the edit asks for. The object moves on only with the path, and
-- an edit that is not rejected and meets no failure is applied.
pub apply_edit-Applied :
    (edit : ManifestEdit) (m : Manifest) (answer : CommitReturn)
    → IsValid m.memory
    → Applied edit m answer (apply_edit edit m answer)
unfolding apply_edit
apply_edit-Applied edit m answer v = elim (Result-cases (next_snapshot edit m.memory)) [
  | inr (e, h) ↦ rw (h, apply_edit) (rejected answer e h)
  | inl (next, h) ↦ commit-Applied edit m next (next_snapshot-Next edit m.memory next v h) h answer
]

Applied-memory :
    (edit : ManifestEdit) (m : Manifest) (answer : CommitReturn)
    (r : Manifest × Result ManifestError (Unit {0}))
    → Applied edit m answer r
    → r.1 ≡ ok tt
    → Next edit m.memory r.0.memory
Applied-memory edit m answer r (rejected _ e p) h = cc
Applied-memory edit m answer r (uncommitted _ e p) h = cc
Applied-memory edit m answer r (unpublished _ next e n p) h = cc
Applied-memory edit m answer r (applied next n) h = n

-- An edit that returns has moved the object on.
pub apply_edit-memory :
    (edit : ManifestEdit) (m : Manifest) (answer : CommitReturn)
    → IsValid m.memory
    → (apply_edit edit m answer).1 ≡ ok tt
    → Next edit m.memory (apply_edit edit m answer).0.memory
apply_edit-memory edit m answer v h =
    Applied-memory edit m answer (apply_edit edit m answer) (apply_edit-Applied edit m answer v) h
