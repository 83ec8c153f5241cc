-- ===== src/Engine/Flushed.antt =====
-- A flush that returns moves the frozen memtable into a live table, and no read sees it.
mod Returning
mod Live
use kronos_engine.Prelude.{
  ◌||◌, ℕ, ◌≡◌, ◌≢◌, ◌⊎◌, ◌↔◌, inl, inr, refl, sym, ap, ◌∙◌, Bool, true, false, Bool-cases, Option,
  none, some, Result, Result-cases, ok, err, List, [], ◌∷◌, Bytes, str_eq, str_lt, str_eq_iff,
  compare_refl, gt_of_lt, if◌then◌else◌, All, All-imp, arith, subst, ◌≺◌, lt_trans,
}
use kronos_engine.Types.{InternalEntry, SstableMetadata, ManifestEdit}
use kronos_engine.OrderedMap.{Map, find, IsAscending, Above}
use kronos_engine.Memtable.{Memtable, MemTableState, mutable, immutable}
use kronos_engine.Files.{In}
use kronos_engine.Manifest.{Manifest, Snapshot, apply_edit}
use kronos_engine.Manifest.Edits.{IsValid, Next, Kept}
use kronos_engine.Manifest.Commit.{apply_edit-memory}
use kronos_engine.Sstable.Build.{build_table, build_table-Ends}
use kronos_engine.Sstable.Build.Finishing.{TableFits}
use kronos_engine.Sstable.Tables.{IsTable}
use kronos_engine.Engine.{
  Engine, EngineError, of_sstable, of_manifest, not_current_immutable, empty_memtable,
  mutable_memtable,
}
use kronos_engine.Engine.Reading.{memory_entry}
use kronos_engine.Engine.Flush.{
  FlushReturns, Flushed, largest_key, flush_edit, release_slot, commit_flush, flush_entries,
  flush_memtable, bloom_bits_per_key, sstable_block_size,
}
use kronos_engine.Engine.Newest.{InOrder, Holds, InTable}
use kronos_engine.Engine.Newest.Tables.{IsLive, IsCached, Covers}
use kronos_engine.Sstable.Reader.{SstableReader}
use kronos_engine.Memtable
use kronos_engine.Engine.Flushed.Returning.{
  failed-ne-ok, Steps, flush_edit-Covers, flush_entries-Steps,
}
use kronos_engine.Engine.Flushed.Live.{
  changed, new_file, all_live, all-IsCached, Holds-flushed, InOrder-flushed,
}

-- What `get` needs of the engine, for every key.
pub record IsReadable (crc32 : Bytes → ℕ) (murmur : Bytes → ℕ → ℕ) (files : Bytes → Option Bytes)
    (table : Bytes → Map InternalEntry) (e : Engine) : Type 0 where
  pub live : All (IsLive crc32 murmur files table) e.manifest.memory.live_files
  pub cached : All (IsCached crc32 murmur files table) e.sstable_readers
  pub in_order : (key : Bytes) → InOrder table e key

In-Next :
    (edit : ManifestEdit) (s next : Snapshot) (made : SstableMetadata)
    → Next edit s next
    → edit.remove_files ≡ []
    → edit.add_files ≡ made ∷ []
    → (m : SstableMetadata) → In m next.live_files ↔ (In m s.live_files ⊎ (made ≡ m))
In-Next edit s next made n none_removed one_added m =
    let keeps : Kept m edit.remove_files = subst (Kept m) (sym none_removed) tt in
    (
      λ i. elim ((n.files m).0 i) [
        | inl old ↦ inl old.0
        | inr new ↦ elim (subst (In m) one_added new) [
          | inl same ↦ inr same
          | inr nothing ↦ absurd nothing
        ]
      ],
      λ p. elim p [
        | inl old ↦ (n.files m).1 (inl (old, keeps))
        | inr new ↦ (n.files m).1 (inr (subst (In m) (sym one_added) (inl new)))
      ],
    )

-- After the flush the engine can be read with the new file, holds the same versions of every key, and
-- its slot is free.
abbrev pub Keeps :
    (Bytes → ℕ)
    → (Bytes → ℕ → ℕ)
    → (Bytes → Option Bytes)
    → (Bytes → Map InternalEntry)
    → Engine
    → Bytes
    → Map InternalEntry
    → Flushed
    → Type 0
Keeps crc32 murmur files table e path all f =
    IsReadable crc32 murmur (changed path f.holds files) (changed path all table) f.engine
    × ((key : Bytes) (v : InternalEntry)
        → Holds (changed path all table) f.engine key v ↔ Holds table e key v)
    × (f.engine.immutable_memtable ≡ none)

flush_entries-Keeps :
    (crc32 : Bytes → ℕ) (murmur : Bytes → ℕ → ℕ) (round_probes : ℕ → ℕ)
    (files : Bytes → Option Bytes) (table : Bytes → Map InternalEntry) (e : Engine) (t : Memtable)
    (path : Bytes) (r : FlushReturns) (is_slot : Bool) (all : Map InternalEntry)
    → t.mtable ≡ all
    → (flush_entries crc32 murmur round_probes e all path r is_slot).result ≡ ok tt
    → e.immutable_memtable ≡ some t
    → files path ≡ none
    → TableFits round_probes bloom_bits_per_key all
    → IsValid e.manifest.memory
    → IsReadable crc32 murmur files table e
    → Keeps crc32 murmur files table e path all
        (flush_entries crc32 murmur round_probes e all path r is_slot)
flush_entries-Keeps crc32 murmur round_probes files table e t path r is_slot [] entries done in_slot
      free fits valid readable =
    absurd (
      failed-ne-ok empty_memtable
        (flush_entries crc32 murmur round_probes e [] path r is_slot).result
        (unfold flush_entries in refl) done)
flush_entries-Keeps crc32 murmur round_probes files table e t path r is_slot ((key, entry) ∷ rest)
      entries done in_slot free fits valid readable =
    let all : Map InternalEntry = (key, entry) ∷ rest in
    let out = flush_entries crc32 murmur round_probes e all path r is_slot in
    let s = flush_entries-Steps crc32 murmur round_probes e key entry rest path r is_slot done in
    elim (build_table-Ends crc32 murmur round_probes bloom_bits_per_key all fits sstable_block_size
      none r.writes r.syncs r.published) [
        | inl (p, failed) ↦ absurd (failed s.built)
        | inr (file, there, is_table, ascending, some_entry) ↦
            let made = new_file path key all in
            let n : Next (flush_edit path (key, entry) rest) e.manifest.memory
                out.engine.manifest.memory =
              subst
                (λ (m : Manifest).
                  Next (flush_edit path (key, entry) rest) e.manifest.memory m.memory)
                (sym s.manifest)
                (apply_edit-memory (flush_edit path (key, entry) rest) e.manifest r.committed valid
                  s.committed) in
            let next =
              In-Next (flush_edit path (key, entry) rest) e.manifest.memory
                out.engine.manifest.memory made n (unfold flush_edit in refl)
                (unfold flush_edit in refl) in
            let covers = flush_edit-Covers key entry rest path ascending in
            let found : some file ≡ out.holds = sym (s.holds ∙ there) in
            subst
              (λ h.
                IsReadable crc32 murmur (changed path h files) (changed path all table) out.engine
                × ((k : Bytes) (v : InternalEntry)
                    → Holds (changed path all table) out.engine k v ↔ Holds table e k v)
                × (out.engine.immutable_memtable ≡ none))
              found
              (
                record {
                  live =
                      all_live crc32 murmur files table e out.engine path file all made free refl
                        readable.live is_table covers next;
                  cached =
                      subst
                        (λ c.
                          All
                            (IsCached crc32 murmur (changed path (some file) files)
                              (changed path all table))
                            c)
                        (sym s.readers)
                        (all-IsCached crc32 murmur files table e out.engine path file all made free
                          refl readable.live is_table covers next e.sstable_readers
                          readable.cached);
                  in_order = λ k.
                      InOrder-flushed crc32 murmur files table e out.engine path file all made free
                        refl readable.live is_table covers next t in_slot entries s.slot s.active k
                        (readable.in_order k);
                },
                Holds-flushed crc32 murmur files table e out.engine path file all made free refl
                    readable.live is_table covers next t in_slot entries s.slot s.active,
                s.slot,
              )
      ]

State-cases : (s : MemTableState) → (s ≡ mutable) ⊎ (s ≡ immutable)
State-cases mutable = inl refl
State-cases immutable = inr refl

-- A flush that returns, to a path that had no file, of the memtable in the slot, whose entries fit
-- in a table, with a valid manifest: where `get` could read the engine, it can read it afterwards
-- with the file that the flush left on the path, and the engine holds exactly the same versions of
-- every key, now without the memtable.
pub flush_memtable-Keeps :
    (crc32 : Bytes → ℕ) (murmur : Bytes → ℕ → ℕ) (round_probes : ℕ → ℕ)
    (files : Bytes → Option Bytes) (table : Bytes → Map InternalEntry) (e : Engine) (t : Memtable)
    (path : Bytes) (r : FlushReturns) (is_slot : Bool)
    → (flush_memtable crc32 murmur round_probes e t path r is_slot).result ≡ ok tt
    → e.immutable_memtable ≡ some t
    → files path ≡ none
    → TableFits round_probes bloom_bits_per_key t.mtable
    → IsValid e.manifest.memory
    → IsReadable crc32 murmur files table e
    → Keeps crc32 murmur files table e path t.mtable
        (flush_memtable crc32 murmur round_probes e t path r is_slot)
unfolding flush_memtable
flush_memtable-Keeps crc32 murmur round_probes files table e t path r is_slot done in_slot free fits
      valid readable =
    let out = flush_memtable crc32 murmur round_probes e t path r is_slot in
    elim (State-cases t.state) [
      | inl m ↦ absurd (failed-ne-ok mutable_memtable out.result (rw (flush_memtable, m) refl) done)
      | inr i ↦
          let same : flush_entries crc32 murmur round_probes e t.mtable path r is_slot ≡ out =
            rw (flush_memtable, i) refl in
          subst (Keeps crc32 murmur files table e path t.mtable) same (
            flush_entries-Keeps crc32 murmur round_probes files table e t path r is_slot t.mtable
              refl (ap (λ (f : Flushed). f.result) same ∙ done) in_slot free fits valid readable)
    ]
