-- ===== src/Sstable/Build.antt =====
-- A whole table: the constructor, `add` for each entry and `finish`, as `Engine::flushMemtable`
-- (src/engine.cpp) and the compactor call them, under every answer of the file system.
pub mod Finishing
use kronos_engine.Prelude.{
  ℕ, suc, ◌+◌, ◌*◌, ◌^◌, ◌<◌, ◌≡◌, ◌≢◌, ◌⊎◌, inl, inr, refl, sym, ap, ◌∙◌, List, [], ◌∷◌, ◌++◌,
  Bytes, length, map, append-nil, Option, some, ok, err, Result, Result-cases, Option-cases, All,
  arith, subst, true, false, Bool-cases,
}
use kronos_engine.Types.{InternalEntry}
use kronos_engine.Io.{WriteReturn, FsyncReturn, Outcome, done, threw, stopped, fsync_loop}
use kronos_engine.OrderedMap.{Map, IsAscending}
use kronos_engine.Bloom
use kronos_engine.Bloom.{BloomFilter, may_contain}
use kronos_engine.Bloom.Membership.{add_all, may_contain-add_all, add_all-same_sizes, make-sizes}
use kronos_engine.Codec.{encode_to_le}
use kronos_engine.Sstable.Format.{
  SstableError, header, magic, version, empty_table, empty_filter, write_failed, process_stopped,
}
use kronos_engine.Sstable.Writing.{write_parts, write_parts-done, concat, Outcome-cases}
use kronos_engine.Sstable.Builder.{
  SstableBuilder, PublishReturn, create, written, add_entries, finish, finish_flushed,
  flush_current_block, is_empty, tail_parts, publish, published, close_fails, stops_before,
  rename_fails, stops_after, directory_fails,
}
use kronos_engine.Sstable.Fields.{Fits}
use kronos_engine.Sstable.Blocks.{records}
use kronos_engine.Sstable.Index.{contents}
use kronos_engine.Sstable.Layout.{
  Holds, IsBuilder, blocks_bytes, index_of, first_key, last_key, IsSome, Within,
}
use kronos_engine.Sstable.Building.{not_both, flush_current_block-Holds}
use kronos_engine.Sstable.Adding.{add_entries-Added}
use kronos_engine.Sstable.Parts.{FilterFits}
use kronos_engine.Sstable.Tables.{IsTable, table_of, table_of-IsTable, file-table_of}
use kronos_engine.Sstable.Build.Finishing.{Ends, TableFits, kept, finish-Ends}

-- What the path of the table holds, and how the calls end; the first exception is the last call.
unfoldable pub build_table :
    (Bytes → ℕ)
    → (Bytes → ℕ → ℕ)
    → (ℕ → ℕ)
    → ℕ
    → ℕ
    → Map InternalEntry
    → Option Bytes
    → List WriteReturn
    → List FsyncReturn
    → PublishReturn
    → Option Bytes × Result SstableError (Unit {0})
build_table crc32 murmur round_probes block_size bits_per_key entries path returns syncs answer =
    let c = create block_size bits_per_key returns in
    let a = add_entries crc32 c.builder entries c.later in
    elim c.result [
      | err e ↦ (path, err e)
      | ok u ↦ elim a.result [
        | err e ↦ (path, err e)
        | ok u ↦ finish crc32 murmur round_probes a.builder path a.later syncs answer
      ]
    ]

create-IsBuilder :
    (crc32 : Bytes → ℕ) (block_size bits_per_key : ℕ) (returns : List WriteReturn)
    → (create block_size bits_per_key returns).result ≡ ok tt
    → IsBuilder crc32 (create block_size bits_per_key returns).builder []
unfolding create written contents records blocks_bytes index_of first_key last_key header
create-IsBuilder crc32 block_size bits_per_key returns h =
    let parts = magic ∷ encode_to_le 4 version ∷ [] in
    let finished : (write_parts parts returns).outcome ≡ done =
      elim (Outcome-cases (write_parts parts returns).outcome) [
        | inl e ↦ e
        | inr (inl e) ↦
            absurd
              (not_both write_failed (written (write_parts parts returns).outcome) (rw e refl) h)
        | inr (inr e) ↦
            absurd
              (not_both process_stopped (written (write_parts parts returns).outcome) (rw e refl) h)
      ] in
    record {
      blocks = [];
      pending = [];
      holds = record {
        all_there = refl;
        file_holds = write_parts-done parts returns finished ∙ (unfold concat in simp append-nil);
        index_holds = refl;
        block_holds = refl;
        count_holds = refl;
        first_holds = refl;
        keys_hold = refl;
        last_holds = refl;
        ascending = tt;
        no_empty = tt;
        within = (tt, inl (omega arith));
      };
    }

module _ (crc32 : Bytes → ℕ) (murmur : Bytes → ℕ → ℕ) (round_probes : ℕ → ℕ) (bits_per_key : ℕ)
    (all : Map InternalEntry) (fits : TableFits round_probes bits_per_key all) where
  -- For every answer of `write`, `fsync`, `close` and `rename` and every place where the process
  -- stops, building a table of entries that fit in the format either throws and leaves the path
  -- alone, or leaves on the path a file that opens, whose lookup of any key answers what the map of
  -- the entries holds, and whose iterator passes exactly the entries; then the keys ascend and there
  -- is an entry.
  pub build_table-Ends :
      (block_size : ℕ) (path : Option Bytes) (returns : List WriteReturn) (syncs : List FsyncReturn)
      (answer : PublishReturn)
      → Ends crc32 murmur all path (
          build_table crc32 murmur round_probes block_size bits_per_key all path returns syncs
            answer)
  unfolding build_table
  build_table-Ends block_size path returns syncs answer =
      let r =
        build_table crc32 murmur round_probes block_size bits_per_key all path returns syncs
          answer in
      let c = create block_size bits_per_key returns in
      let a = add_entries crc32 c.builder all c.later in
      elim (Result-cases c.result) [
        | inr (e, f) ↦
            kept crc32 murmur round_probes bits_per_key all fits path e r (rw (build_table, f) refl)
        | inl (u, f) ↦ elim (Result-cases a.result) [
          | inr (e, g) ↦
              kept crc32 murmur round_probes bits_per_key all fits path e r
                (rw (build_table, f, g) refl)
          | inl (v, g) ↦
              let added =
                add_entries-Added crc32 c.builder [] all c.later
                  (create-IsBuilder crc32 block_size bits_per_key returns f)
                  (omega (arith, fits.records_fit)) g in
              let goes_on : r
                  ≡ finish crc32 murmur round_probes a.builder path a.later syncs answer =
                rw (build_table, f, g) refl in
              subst (Ends crc32 murmur all path) (sym goes_on) (
                finish-Ends crc32 murmur round_probes bits_per_key all fits a.builder path a.later
                  syncs answer added.built (added.same.bits ∙ (unfold create in refl)))
        ]
      ]

-- On a new builder, calls of `add` that return, for entries of which the records take less than
-- 2^64 - 8 bytes, leave the entries in ascending order in blocks of the file and in the pending block,
-- with an index of the blocks at their offsets, no block empty, and each block of more than one
-- record within the target size.
pub add_entries-Within :
    (crc32 : Bytes → ℕ) (block_size bits_per_key : ℕ) (entries : Map InternalEntry)
    (returns : List WriteReturn)
    → (create block_size bits_per_key returns).result ≡ ok tt
    → 8 + length (records entries) < 2 ^ 64
    → (add_entries crc32
        (create block_size bits_per_key returns).builder
        entries
        (create block_size bits_per_key returns).later).result
      ≡ ok tt
    → (blocks : List (Map InternalEntry)) × (pending : Map InternalEntry) × (contents blocks
          ++ pending
        ≡ entries)
      × IsAscending entries
      × ((add_entries crc32
            (create block_size bits_per_key returns).builder
            entries
            (create block_size bits_per_key returns).later).builder.file
          ≡ header ++ blocks_bytes crc32 blocks)
      × ((add_entries crc32
            (create block_size bits_per_key returns).builder
            entries
            (create block_size bits_per_key returns).later).builder.sparse_index
          ≡ index_of crc32 8 blocks)
      × All IsSome blocks
      × All (Within block_size) blocks
      × Within block_size pending
add_entries-Within crc32 block_size bits_per_key entries returns opened size added =
    let c = create block_size bits_per_key returns in
    let a =
      add_entries-Added crc32 c.builder [] entries c.later
        (create-IsBuilder crc32 block_size bits_per_key returns opened) size added in
    let h = a.built.holds in
    let target : (add_entries crc32 c.builder entries c.later).builder.target_block_size
        ≡ block_size =
      a.same.target ∙ (unfold create in refl) in
    (
      a.built.blocks,
      a.built.pending,
      h.all_there,
      h.ascending,
      h.file_holds,
      h.index_holds,
      h.no_empty,
      subst (λ n. All (Within n) a.built.blocks) target h.within.0,
      subst (λ n. Within n a.built.pending) target h.within.1,
    )
