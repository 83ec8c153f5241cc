-- ===== src/Sstable/Tables.antt =====
-- A file that reads as a table of these entries, and that the file of a finished builder is one.
use kronos_engine.Prelude.{
  ℕ, suc, ◌+◌, ◌^◌, ◌<◌, ◌≡◌, refl, sym, ap, ◌∙◌, List, [], ◌∷◌, ◌++◌, Bytes, length, map,
  length-append, append_assoc, none, some, ok, ◌>>=◌, All, arith, subst, true, Bool-cases, inl, inr,
  str_eq, str_eq_iff,
}
use kronos_engine.Types.{InternalEntry}
use kronos_engine.OrderedMap.{Map, find, IsAscending}
use kronos_engine.Bloom.{BloomFilter, may_contain}
use kronos_engine.Codec.{encode_to_le}
use kronos_engine.Sstable.Format.{SparseIndexEntry, header, bloom_block, index_block}
use kronos_engine.Sstable.Writing.{concat}
use kronos_engine.Sstable.Builder.{SstableBuilder, tail_parts}
use kronos_engine.Sstable.Reader.{
  FooterInfo, SstableReader, open_table, read_header, read_footer, load_bloom_filter,
  load_sparse_index,
}
use kronos_engine.Sstable.Lookup.{is_excluded, lookup_entry}
use kronos_engine.Sstable.Iterator.{get_iterator}
use kronos_engine.Sstable.Fields.{Fits, stored, EntryFits}
use kronos_engine.Sstable.Blocks.{records, BlockFits}
use kronos_engine.Sstable.Index.{PointsAll, contents, search_index-contents}
use kronos_engine.Sstable.Scanning.{collect, collect-contents}
use kronos_engine.Sstable.Layout.{blocks_bytes, index_of, Holds, IsSome}
use kronos_engine.Sstable.Parts.{
  read_header-header, FilterFits, load_bloom_filter-block, load_sparse_index-block, FooterFits,
  footer, read_footer-footer, length-index_block, length-index_entries, length-bloom_block,
}
use kronos_engine.Sstable.Finished.{
  blocks_fit, index_of-PointsAll, length-blocks_bytes, length-index_of, index_of-EntryFits,
}

-- The file opens, a lookup of any key answers what the map of the entries holds, and the iterator
-- passes exactly the entries, in order.
pub record IsTable (crc32 : Bytes → ℕ) (murmur : Bytes → ℕ → ℕ) (file : Bytes)
    (all : Map InternalEntry) : Type 0 where
  pub reader : SstableReader
  pub opens : open_table crc32 file ≡ ok reader
  pub looks_up : (key : Bytes) → lookup_entry crc32 murmur reader key ≡ ok (find key all)
  pub iterates :
      (get_iterator crc32 reader >>= collect crc32 reader.file (suc (length all)))
      ≡ ok (some (map stored all))

-- A key that the filter excludes is not there.
find-excluded :
    (P : Bytes → Type 0) (key : Bytes) (all : Map InternalEntry)
    → All P (map (λ r. r.0) all)
    → ¬ P key
    → find key all ≡ none
unfolding find
find-excluded P key [] a h = refl
find-excluded P key ((j, e) ∷ rs) a h = elim (Bool-cases (str_eq j key)) [
  | inl same ↦ absurd (h (subst P ((str_eq_iff j key).0 same) a.0))
  | inr other ↦ rw other (find-excluded P key rs a.1 h)
]

module _ (crc32 : Bytes → ℕ) (murmur : Bytes → ℕ → ℕ) where
  lookup_entry-find :
      (file : Bytes) (f : BloomFilter) (bs : List (Map InternalEntry)) (key : Bytes)
      → (r : SstableReader) → r.file ≡ file
      → r.bloom_filter ≡ some f
      → PointsAll crc32 file r.sparse_index bs
      → IsAscending (contents bs)
      → All (λ k. may_contain murmur k f ≡ true) (map (λ r. r.0) (contents bs))
      → lookup_entry crc32 murmur r key ≡ ok (find key (contents bs))
  unfolding lookup_entry is_excluded
  lookup_entry-find file f bs key r same filter points a keys =
      elim (Bool-cases (may_contain murmur key f)) [
        | inl there ↦
            rw (filter, there, same)
              (search_index-contents crc32 file key r.sparse_index bs points a)
        | inr out ↦
            let missing : find key (contents bs) ≡ none =
              find-excluded (λ k. may_contain murmur k f ≡ true) key (contents bs) keys (λ h. cc) in
            rw (filter, out, missing) refl
      ]

  open_table-parts :
      (file : Bytes) (i : FooterInfo) (f : BloomFilter) (es : List SparseIndexEntry)
      → read_header file ≡ ok tt
      → read_footer crc32 file ≡ ok i
      → load_bloom_filter crc32 i.bloom_offset i.bloom_size file ≡ ok f
      → load_sparse_index crc32 i.index_offset i.index_size file ≡ ok es
      → open_table crc32 file
        ≡ ok (record { file = file; bloom_filter = some f; sparse_index = es })
  unfolding open_table
  open_table-parts file i f es p q r s = rw (p, q, r, s) refl

  -- The footer that `finish` writes behind these blocks.
  footer_of : List (Map InternalEntry) → BloomFilter → FooterInfo
  footer_of bs f =
      let start = length (header ++ blocks_bytes crc32 bs) in
      let bloom = length (bloom_block crc32 f) in
      record {
        bloom_offset = start;
        bloom_size = bloom;
        index_offset = start + bloom;
        index_size = length (index_block crc32 (index_of crc32 8 bs));
      }

  -- The file of a table.
  pub table_of : List (Map InternalEntry) → BloomFilter → Bytes
  table_of bs f =
      header
      ++ (blocks_bytes crc32 bs
          ++ (bloom_block crc32 f
              ++ (index_block crc32 (index_of crc32 8 bs) ++ footer crc32 (footer_of bs f))))

  pub file-table_of :
      (b : SstableBuilder) (all : Map InternalEntry) (bs : List (Map InternalEntry))
      (f : BloomFilter)
      → Holds crc32 b all bs []
      → b.file ++ concat (tail_parts crc32 b f) ≡ table_of bs f
  unfolding tail_parts table_of footer footer_of concat
  file-table_of b all bs f h =
      rw (h.file_holds, h.index_holds) (append_assoc header (blocks_bytes crc32 bs) _)

  header_size : (xs : Bytes) → length (header ++ xs) ≡ 8 + length xs
  unfolding header encode_to_le
  header_size xs = omega arith

  module _ (bs : List (Map InternalEntry)) (f : BloomFilter) (some_records : All IsSome bs)
      (fits : All Fits (contents bs)) (size : 8 + length (records (contents bs)) < 2 ^ 32)
      (filter_fits : FilterFits f) where
    front : Bytes
    front = header ++ blocks_bytes crc32 bs

    footer_fits : FooterFits (footer_of bs f)
    unfolding footer_of
    footer_fits =
        let a = header_size (blocks_bytes crc32 bs) in
        let b = length-blocks_bytes crc32 bs some_records in
        let c = length-bloom_block crc32 f in
        let d = length-index_block crc32 (index_of crc32 8 bs) in
        let e = length-index_of crc32 8 bs some_records in
        record {
          bloom_offset_fits = omega (arith, a, b);
          bloom_size_fits = omega (arith, c, filter_fits.packed, filter_fits.bits_fit);
          index_offset_fits = omega (arith, a, b, c, filter_fits.packed, filter_fits.bits_fit);
          index_size_fits = omega (arith, d, e);
        }

    blocks_are : All BlockFits bs
    blocks_are = blocks_fit bs some_records fits size

    entries_fit : All EntryFits (index_of crc32 8 bs)
    entries_fit =
        index_of-EntryFits crc32 8 bs some_records blocks_are
          (omega (arith, length-blocks_bytes crc32 bs some_records))

    few_entries : length (index_of crc32 8 bs) < 2 ^ 32
    few_entries =
        omega (
          arith,
          length-index_entries (index_of crc32 8 bs),
          length-index_of crc32 8 bs some_records,
        )

    points : PointsAll crc32 (table_of bs f) (index_of crc32 8 bs) bs
    unfolding table_of header encode_to_le
    points = index_of-PointsAll crc32 header _ bs some_records blocks_are

    -- It opens, with the filter and the index that were written.
    open_table-table_of :
        open_table crc32 (table_of bs f)
        ≡ ok (record {
          file = table_of bs f;
          bloom_filter = some f;
          sparse_index = index_of crc32 8 bs;
        })
    unfolding table_of front footer_of
    open_table-table_of =
        let ix = index_block crc32 (index_of crc32 8 bs) in
        let foot = footer crc32 (footer_of bs f) in
        let bloom = bloom_block crc32 f in
        let file = table_of bs f in
        let at_footer : (front ++ (bloom ++ ix)) ++ foot ≡ file = simp append_assoc in
        let at_bloom : front ++ (bloom ++ (ix ++ foot)) ≡ file = simp append_assoc in
        let at_index : (front ++ bloom) ++ (ix ++ foot) ≡ file = simp append_assoc in
        let offset : length (front ++ bloom) ≡ length front + length bloom =
          length-append front bloom in
        open_table-parts file (footer_of bs f) f (index_of crc32 8 bs) (read_header-header _)
          (ap (read_footer crc32) (sym at_footer)
            ∙ read_footer-footer crc32 (footer_of bs f) (front ++ (bloom ++ ix)) footer_fits)
          (ap (load_bloom_filter crc32 (length front) (length bloom)) (sym at_bloom)
            ∙ load_bloom_filter-block crc32 front (ix ++ foot) f filter_fits)
          (ap (λ n. load_sparse_index crc32 n (length ix) file) (sym offset)
            ∙ ap (load_sparse_index crc32 (length (front ++ bloom)) (length ix)) (sym at_index)
            ∙ load_sparse_index-block crc32 (front ++ bloom) foot (index_of crc32 8 bs) entries_fit
                few_entries)

    pub table_of-IsTable :
        IsAscending (contents bs)
        → All (λ k. may_contain murmur k f ≡ true) (map (λ r. r.0) (contents bs))
        → IsTable crc32 murmur (table_of bs f) (contents bs)
    table_of-IsTable a keys = record {
      reader = record {
        file = table_of bs f;
        bloom_filter = some f;
        sparse_index = index_of crc32 8 bs;
      };
      opens = open_table-table_of;
      looks_up = λ key.
          lookup_entry-find (table_of bs f) f bs key
            (record {
              file = table_of bs f;
              bloom_filter = some f;
              sparse_index = index_of crc32 8 bs;
            })
            refl refl points a keys;
      iterates =
          unfold get_iterator in
          collect-contents crc32 (table_of bs f) (index_of crc32 8 bs) bs points;
    }
