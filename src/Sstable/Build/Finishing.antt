-- ===== src/Sstable/Build/Finishing.antt =====
-- The end of a table: `finish` (src/sstable.cpp) under every answer of the file system.
use kronos_engine.Prelude.{
  ℕ, suc, ◌+◌, ◌*◌, ◌^◌, ◌<◌, ◌≡◌, ◌≢◌, ◌⊎◌, inl, inr, refl, sym, ap, ◌∙◌, List, [], ◌∷◌, ◌++◌,
  Bytes, length, map, append-nil, Option, some, ok, err, Result, Result-cases, Option-cases, All,
  arith, subst, true, false, Bool-cases,
}
use kronos_engine.Types.{InternalEntry}
use kronos_engine.Io.{WriteReturn, FsyncReturn, Outcome, done, threw, stopped, fsync_loop}
use kronos_engine.OrderedMap.{Map, IsAscending}
use kronos_engine.Bloom
use kronos_engine.Bloom.{BloomFilter, may_contain}
use kronos_engine.Bloom.Membership.{add_all, may_contain-add_all, add_all-same_sizes, make-sizes}
use kronos_engine.Sstable.Format.{
  SstableError, empty_table, empty_filter, write_failed, process_stopped,
}
use kronos_engine.Sstable.Writing.{write_parts, write_parts-done, concat, Outcome-cases}
use kronos_engine.Sstable.Builder.{
  SstableBuilder, PublishReturn, finish, finish_flushed, flush_current_block, is_empty, tail_parts,
  publish, published, close_fails, stops_before, rename_fails, stops_after, directory_fails,
}
use kronos_engine.Sstable.Fields.{Fits}
use kronos_engine.Sstable.Blocks.{records}
use kronos_engine.Sstable.Index.{contents}
use kronos_engine.Sstable.Layout.{Holds, IsBuilder}
use kronos_engine.Sstable.Building.{not_both, flush_current_block-Holds}
use kronos_engine.Sstable.Parts.{FilterFits}
use kronos_engine.Sstable.Tables.{IsTable, table_of, table_of-IsTable, file-table_of}

-- The path keeps what it held and the call throws, or it holds a whole table of the entries.
abbrev pub Ends :
    (Bytes → ℕ)
    → (Bytes → ℕ → ℕ)
    → Map InternalEntry
    → Option Bytes
    → Option Bytes × Result SstableError (Unit {0})
    → Type 0
Ends crc32 murmur all path r =
    ((r.0 ≡ path) × (r.1 ≢ ok tt))
    ⊎ ((file : Bytes) × (r.0 ≡ some file)
        × IsTable crc32 murmur file all
        × IsAscending all
        × (all ≢ []))

-- The sizes that the format and the filter have room for.
pub record TableFits (round_probes : ℕ → ℕ) (bits_per_key : ℕ) (all : Map InternalEntry)
    : Type 0 where
  pub all_fit : All Fits all
  pub records_fit : 8 + length (records all) < 2 ^ 32
  pub bits_fit : bits_per_key * length all < 2 ^ 32
  pub probes_fit : round_probes bits_per_key < 2 ^ 32

publish_cases :
    (file : Bytes) (path : Option Bytes) (syncs : List FsyncReturn) (answer : PublishReturn)
    → (((publish file path syncs answer).0 ≡ path) × ((publish file path syncs answer).1 ≢ ok tt))
      ⊎ ((publish file path syncs answer).0 ≡ some file)
unfolding publish
publish_cases file path syncs answer = by_sync (fsync_loop syncs) refl
  where
    by_answer :
        (a : PublishReturn)
        → fsync_loop syncs ≡ done
        → (((publish file path syncs a).0 ≡ path) × ((publish file path syncs a).1 ≢ ok tt))
          ⊎ ((publish file path syncs a).0 ≡ some file)
    by_answer close_fails e = inl (rw (publish, e) refl, rw (publish, e) (λ h. cc))
    by_answer stops_before e = inl (rw (publish, e) refl, rw (publish, e) (λ h. cc))
    by_answer rename_fails e = inl (rw (publish, e) refl, rw (publish, e) (λ h. cc))
    by_answer stops_after e = inr (rw (publish, e) refl)
    by_answer directory_fails e = inr (rw (publish, e) refl)
    by_answer published e = inr (rw (publish, e) refl)

    by_sync :
        (o : Outcome)
        → fsync_loop syncs ≡ o
        → (((publish file path syncs answer).0 ≡ path)
            × ((publish file path syncs answer).1 ≢ ok tt))
          ⊎ ((publish file path syncs answer).0 ≡ some file)
    by_sync done e = by_answer answer e
    by_sync threw e = inl (rw (publish, e) refl, rw (publish, e) (λ h. cc))
    by_sync stopped e = inl (rw (publish, e) refl, rw (publish, e) (λ h. cc))

length-map :
    (f : Bytes × InternalEntry → Bytes) (m : Map InternalEntry) → length (map f m) ≡ length m
length-map f [] = refl
length-map f (x ∷ m) = ap suc (length-map f m)

module _ (crc32 : Bytes → ℕ) (murmur : Bytes → ℕ → ℕ) (round_probes : ℕ → ℕ) (bits_per_key : ℕ)
    (all : Map InternalEntry) (fits : TableFits round_probes bits_per_key all) where
  -- The filter of the table, and that it excludes none of the keys.
  filter_ok :
      (keys : List Bytes) (f : BloomFilter)
      → length keys ≡ length all
      → Bloom.make round_probes bits_per_key (length keys) ≡ some f
      → FilterFits (add_all murmur keys f)
        × All (λ k. may_contain murmur k (add_all murmur keys f) ≡ true) keys
  filter_ok keys f same made =
      let bits : bits_per_key * length keys < 2 ^ 32 =
        subst (λ n. bits_per_key * n < 2 ^ 32) (sym same) fits.bits_fit in
      let (a, b, c, d, e, v) =
        make-sizes round_probes bits_per_key (length keys) f made bits fits.probes_fit in
      let (p, q, r) = add_all-same_sizes murmur keys f in
      (
        record {
          some_bits = omega arith;
          bits_fit = omega arith;
          some_probes = omega arith;
          probes_fit = omega arith;
          packed = omega arith;
        },
        may_contain-add_all murmur keys f v,
      )

  pub kept :
      (path : Option Bytes) (e : SstableError) (r : Option Bytes × Result SstableError (Unit {0}))
      → r ≡ (path, err e)
      → Ends crc32 murmur all path r
  kept path e r h = inl (ap (λ x. x.0) h, λ k. not_both e r.1 (ap (λ x. x.1) h) k)

  some_keys :
      (keys : List Bytes) (m : Map InternalEntry)
      → keys ≡ map (λ r. r.0) m
      → is_empty keys ≡ false
      → m ≢ []
  unfolding is_empty
  some_keys keys [] h e k = cc
  some_keys keys (r ∷ rs) h e k = cc

  published-Ends :
      (b : SstableBuilder) (bs : List (Map InternalEntry)) (path : Option Bytes) (f : BloomFilter)
      (r : Option Bytes × Result SstableError (Unit {0}))
      → Holds crc32 b all bs []
      → all ≢ []
      → Bloom.make round_probes bits_per_key (length b.bloom_keys) ≡ some f
      → r.0 ≡ some (b.file ++ concat (tail_parts crc32 b (add_all murmur b.bloom_keys f)))
      → Ends crc32 murmur all path r
  published-Ends b bs path f r h some_entry made e =
      let g = add_all murmur b.bloom_keys f in
      let whole : contents bs ≡ all = sym (append-nil (contents bs)) ∙ h.all_there in
      let (filter_fits, keys) =
        filter_ok b.bloom_keys f (ap length h.keys_hold ∙ length-map (λ r. r.0) all) made in
      let table =
        table_of-IsTable crc32 murmur bs g h.no_empty
          (subst (λ m. All Fits m) (sym whole) fits.all_fit)
          (subst (λ (m : Map InternalEntry). 8 + length (records m) < 2 ^ 32) (sym whole)
            fits.records_fit)
          filter_fits (subst (λ m. IsAscending m) (sym whole) h.ascending)
          (subst (λ ks. All (λ k. may_contain murmur k g ≡ true) ks)
            (h.keys_hold ∙ ap (map (λ r. r.0)) (sym whole)) keys) in
      inr (
        table_of crc32 murmur bs g,
        e ∙ ap some (file-table_of crc32 murmur b all bs g h),
        subst (λ m. IsTable crc32 murmur (table_of crc32 murmur bs g) m) whole table,
        h.ascending,
        some_entry,
      )

  finish_flushed-Ends :
      (b : SstableBuilder) (bs : List (Map InternalEntry)) (path : Option Bytes)
      (returns : List WriteReturn) (syncs : List FsyncReturn) (answer : PublishReturn)
      → Holds crc32 b all bs []
      → b.bits_per_key ≡ bits_per_key
      → Ends crc32 murmur all path
          (finish_flushed crc32 murmur round_probes b path returns syncs answer)
  unfolding finish_flushed
  finish_flushed-Ends b bs path returns syncs answer h same =
      let r = finish_flushed crc32 murmur round_probes b path returns syncs answer in
      elim (Bool-cases (is_empty b.bloom_keys)) [
        | inl e ↦ kept path empty_table r (rw e refl)
        | inr e ↦
            elim (Option-cases (Bloom.make round_probes b.bits_per_key (length b.bloom_keys))) [
              | inl m ↦ kept path empty_filter r (rw (e, m) refl)
              | inr (f, m) ↦
                  let parts = tail_parts crc32 b (add_all murmur b.bloom_keys f) in
                  elim (Outcome-cases (write_parts parts returns).outcome) [
                    | inr (inl o) ↦ kept path write_failed r (rw (e, m, o) refl)
                    | inr (inr o) ↦ kept path process_stopped r (rw (e, m, o) refl)
                    | inl o ↦
                        let file = b.file ++ (write_parts parts returns).bytes in
                        let ends : r ≡ publish file path syncs answer = rw (e, m, o) refl in
                        elim (publish_cases file path syncs answer) [
                          | inl (p, q) ↦
                              inl (ap (λ x. x.0) ends ∙ p, λ k. q (ap (λ x. x.1) (sym ends) ∙ k))
                          | inr p ↦
                              published-Ends b bs path f r h
                                (some_keys b.bloom_keys all h.keys_hold e)
                                (ap (λ n. Bloom.make round_probes n (length b.bloom_keys))
                                    (sym same)
                                  ∙ m)
                                (ap (λ x. x.0) ends
                                  ∙ p
                                  ∙ ap (λ x. some (b.file ++ x)) (write_parts-done parts returns o))
                        ]
                  ]
            ]
      ]

  pub finish-Ends :
      (b : SstableBuilder) (path : Option Bytes) (returns : List WriteReturn)
      (syncs : List FsyncReturn) (answer : PublishReturn)
      → IsBuilder crc32 b all
      → b.bits_per_key ≡ bits_per_key
      → Ends crc32 murmur all path (finish crc32 murmur round_probes b path returns syncs answer)
  unfolding finish
  finish-Ends b path returns syncs answer built same =
      let p = flush_current_block crc32 b returns in
      elim (Result-cases p.result) [
        | inr (e, f) ↦
            kept path e (finish crc32 murmur round_probes b path returns syncs answer)
              (rw (finish, f) refl)
        | inl (u, f) ↦
            let (bs, h, settings) =
              flush_current_block-Holds crc32 b all built.blocks built.pending returns built.holds
                f in
            let r = finish_flushed crc32 murmur round_probes p.builder path p.later syncs answer in
            let goes_on : finish crc32 murmur round_probes b path returns syncs answer ≡ r =
              rw (finish, f) refl in
            subst (Ends crc32 murmur all path) (sym goes_on)
              (finish_flushed-Ends p.builder bs path p.later syncs answer h (settings.bits ∙ same))
      ]
