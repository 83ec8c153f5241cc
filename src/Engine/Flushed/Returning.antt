-- ===== src/Engine/Flushed/Returning.antt =====
-- What a call of `flushMemtable` (src/engine.cpp) that returns went through.
use kronos_engine.Prelude.{
  ◌||◌, ℕ, ◌≡◌, ◌≢◌, inl, inr, refl, Bool, false, Bool-cases, none, Result, Result-cases, ok, err,
  [], ◌∷◌, Bytes, str_lt, compare_refl, gt_of_lt, All, arith, ◌≺◌, lt_trans,
}
use kronos_engine.Types.{InternalEntry}
use kronos_engine.OrderedMap.{Map, IsAscending, Above}
use kronos_engine.Manifest.{apply_edit}
use kronos_engine.Sstable.Build.{build_table}
use kronos_engine.Engine.{Engine, EngineError, of_sstable, of_manifest, not_current_immutable}
use kronos_engine.Engine.Flush.{
  FlushReturns, Flushed, largest_key, flush_edit, release_slot, commit_flush, flush_entries,
  bloom_bits_per_key, sstable_block_size,
}
use kronos_engine.Engine.Newest.Tables.{Covers}

pub failed-ne-ok : (x : EngineError) (r : Result EngineError (Unit {0})) → r ≡ err x → r ≢ ok tt
failed-ne-ok x r h k = cc

-- The largest key is not before any key of a table in order.
largest_key-last :
    (key : Bytes) (m : Map InternalEntry)
    → IsAscending m
    → Above key m
    → (str_lt (largest_key key m) key ≡ false) × All (λ r. str_lt (largest_key key m) r.0 ≡ false) m
unfolding largest_key
largest_key-last key [] a b = (ground (arith, compare_refl key), tt)
largest_key-last key ((k, e) ∷ m) a b =
    let (here, later) = largest_key-last k m a.1 a.0 in
    (not_before (largest_key k m) here b.0, (here, later))
  where
    not_before : (l : Bytes) → str_lt l k ≡ false → key ≺ k → str_lt l key ≡ false
    not_before l h c = ground (arith, lt_trans l key k)

pub flush_edit-Covers :
    (key : Bytes) (e : InternalEntry) (rest : Map InternalEntry) (path : Bytes)
    → IsAscending ((key, e) ∷ rest)
    → Covers
        (record {
          path = path;
          level = 0;
          smallest_key = key;
          largest_key = largest_key key ((key, e) ∷ rest);
        })
        ((key, e) ∷ rest)
unfolding largest_key
flush_edit-Covers key e rest path a =
    let (here, later) = largest_key-last key rest a.1 a.0 in
    (ground (arith, compare_refl key), both rest a.0 later)
  where
    both :
        (m : Map InternalEntry)
        → Above key m
        → All (λ r. str_lt (largest_key key rest) r.0 ≡ false) m
        → All (λ r. (str_lt r.0 key || str_lt (largest_key key rest) r.0) ≡ false) m
    both [] b h = tt
    both ((k, v) ∷ m) b h = (ground (arith, gt_of_lt key k), both m b.1 h.1)

-- What a call that returns went through.
pub record Steps (crc32 : Bytes → ℕ) (murmur : Bytes → ℕ → ℕ) (round_probes : ℕ → ℕ) (e : Engine)
    (key : Bytes) (entry : InternalEntry) (rest : Map InternalEntry) (path : Bytes)
    (r : FlushReturns) (f : Flushed) : Type 0 where
  pub built :
      (build_table crc32 murmur round_probes sstable_block_size bloom_bits_per_key
        ((key, entry) ∷ rest)
        none
        r.writes
        r.syncs
        r.published).1
      ≡ ok tt
  pub holds :
      f.holds
      ≡ (build_table crc32 murmur round_probes sstable_block_size bloom_bits_per_key
          ((key, entry) ∷ rest)
          none
          r.writes
          r.syncs
          r.published).0
  pub committed : (apply_edit (flush_edit path (key, entry) rest) e.manifest r.committed).1 ≡ ok tt
  pub manifest :
      f.engine.manifest ≡ (apply_edit (flush_edit path (key, entry) rest) e.manifest r.committed).0
  pub active : f.engine.active_memtable ≡ e.active_memtable
  pub slot : f.engine.immutable_memtable ≡ none
  pub readers : f.engine.sstable_readers ≡ e.sstable_readers

pub flush_entries-Steps :
    (crc32 : Bytes → ℕ) (murmur : Bytes → ℕ → ℕ) (round_probes : ℕ → ℕ) (e : Engine) (key : Bytes)
    (entry : InternalEntry) (rest : Map InternalEntry) (path : Bytes) (r : FlushReturns)
    (is_slot : Bool)
    → (flush_entries crc32 murmur round_probes e ((key, entry) ∷ rest) path r is_slot).result
      ≡ ok tt
    → Steps crc32 murmur round_probes e key entry rest path r
        (flush_entries crc32 murmur round_probes e ((key, entry) ∷ rest) path r is_slot)
unfolding flush_entries commit_flush release_slot
flush_entries-Steps crc32 murmur round_probes e key entry rest path r is_slot h =
    let built =
      build_table crc32 murmur round_probes sstable_block_size bloom_bits_per_key
        ((key, entry) ∷ rest) none r.writes r.syncs r.published in
    let edited = apply_edit (flush_edit path (key, entry) rest) e.manifest r.committed in
    let f = flush_entries crc32 murmur round_probes e ((key, entry) ∷ rest) path r is_slot in
    elim (Result-cases built.1) [
      | inr (x, p) ↦ absurd (failed-ne-ok (of_sstable x) f.result (rw (flush_entries, p) refl) h)
      | inl (u, p) ↦ elim (Result-cases edited.1) [
        | inr (x, q) ↦
            absurd (
              failed-ne-ok (of_manifest x) f.result (rw (flush_entries, p, commit_flush, q) refl) h)
        | inl (v, q) ↦ elim (Bool-cases is_slot) [
          | inr s ↦ absurd (
              failed-ne-ok not_current_immutable f.result
                (rw (flush_entries, p, commit_flush, q, release_slot, s) refl) h)
          | inl s ↦ record {
            built = p;
            holds = rw (flush_entries, p, commit_flush, q, release_slot, s) refl;
            committed = q;
            manifest = rw (flush_entries, p, commit_flush, q, release_slot, s) refl;
            active = rw (flush_entries, p, commit_flush, q, release_slot, s) refl;
            slot = rw (flush_entries, p, commit_flush, q, release_slot, s) refl;
            readers = rw (flush_entries, p, commit_flush, q, release_slot, s) refl;
          }
        ]
      ]
    ]
