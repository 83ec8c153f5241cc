-- ===== src/Sstable/Finished.antt =====
-- The file of blocks that `finish` completes: each entry of the index points at its block, and every
-- number of the format fits in its field.
use kronos_engine.Prelude.{
  ℕ, ◌+◌, ◌*◌, ◌%◌, ◌^◌, ◌≤◌, ◌<◌, ◌≡◌, refl, sym, ap, ◌∙◌, List, [], ◌∷◌, ◌++◌, Bytes, length,
  length-append, append_assoc, All, All-split, arith, subst,
}
use kronos_engine.Types.{InternalEntry}
use kronos_engine.OrderedMap.{Map}
use kronos_engine.Sstable.Format.{index_entry, index_entries, record_bytes}
use kronos_engine.Sstable.Reader.{read_at}
use kronos_engine.Sstable.Fields.{read_at-middle, Fits, EntryFits}
use kronos_engine.Sstable.Blocks.{
  block, records, records-append, BlockFits, length-block, length-records, length-record_bytes,
}
use kronos_engine.Sstable.Index.{PointsAll, contents, StartsAt}
use kronos_engine.Sstable.Layout.{first_key, blocks_bytes, entry_of, index_of, IsSome}
use kronos_engine.Sstable.Parts.{length-index_entry}

length-records_append :
    (xs ys : Map InternalEntry)
    → length (records (xs ++ ys)) ≡ length (records xs) + length (records ys)
length-records_append xs ys =
    ap length (records-append xs ys) ∙ length-append (records xs) (records ys)

pub blocks_fit :
    (bs : List (Map InternalEntry))
    → All IsSome bs
    → All Fits (contents bs)
    → 8 + length (records (contents bs)) < 2 ^ 32
    → All BlockFits bs
unfolding contents
blocks_fit [] s f size = tt
blocks_fit ([] ∷ bs) s f size = absurd s.0
blocks_fit ((r ∷ rs) ∷ bs) s f size =
    let (here, there) = All-split Fits (r ∷ rs) (contents bs) f in
    let total = length-records_append (r ∷ rs) (contents bs) in
    (
      record { all_fit = here; some_records = omega arith; size_fits = omega (arith, total) },
      blocks_fit bs s.1 there (omega (arith, total)),
    )

starts_at : (b : Map InternalEntry) → IsSome b → StartsAt (first_key b) b
unfolding first_key
starts_at [] s = absurd s
starts_at ((k, e) ∷ rs) s = refl

module _ (crc32 : Bytes → ℕ) where
  -- Whatever stands before and behind the blocks.
  pub index_of-PointsAll :
      (before behind : Bytes) (bs : List (Map InternalEntry))
      → All IsSome bs
      → All BlockFits bs
      → PointsAll crc32
          (before ++ (blocks_bytes crc32 bs ++ behind))
          (index_of crc32 (length before) bs)
          bs
  unfolding index_of blocks_bytes
  index_of-PointsAll before behind [] s f = tt
  index_of-PointsAll before behind (b ∷ bs) s f =
      let first = block crc32 b in
      let others = blocks_bytes crc32 bs in
      let size : (4 + length (records b) + 4) % 2 ^ 32 ≡ length first =
        omega (arith, f.0.size_fits, length-block crc32 b) in
      let regroup : before ++ ((first ++ others) ++ behind)
          ≡ before ++ (first ++ (others ++ behind)) =
        ap (◌++◌ before) (append_assoc first others behind) in
      let shift : (before ++ first) ++ (others ++ behind)
          ≡ before ++ ((first ++ others) ++ behind) =
        append_assoc before first (others ++ behind) ∙ sym regroup in
      (
        record {
          fits = f.0;
          starts = starts_at b s.0;
          size = size;
          placed =
              ap (λ n. read_at (length before) n (before ++ ((first ++ others) ++ behind))) size
              ∙ ap (read_at (length before) (length first)) regroup
              ∙ read_at-middle before first (others ++ behind);
        },
        subst
            (λ n.
              PointsAll crc32 (before ++ ((first ++ others) ++ behind)) (index_of crc32 n bs) bs)
            (length-append before first)
            (subst (λ x. PointsAll crc32 x (index_of crc32 (length (before ++ first)) bs) bs) shift
              (index_of-PointsAll (before ++ first) behind bs s.1 f.1)),
      )

  -- Blocks take their records and eight bytes each, which a record outweighs.
  pub length-blocks_bytes :
      (bs : List (Map InternalEntry))
      → All IsSome bs
      → length (blocks_bytes crc32 bs) ≤ 2 * length (records (contents bs))
  unfolding blocks_bytes contents
  length-blocks_bytes [] s = omega arith
  length-blocks_bytes ([] ∷ bs) s = absurd s.0
  length-blocks_bytes ((r ∷ rs) ∷ bs) s = omega (
    arith,
    length-blocks_bytes bs s.1,
    length-append (block crc32 (r ∷ rs)) (blocks_bytes crc32 bs),
    length-block crc32 (r ∷ rs),
    length-records_append (r ∷ rs) (contents bs),
    length-records (r ∷ rs),
  )

  first_key-le :
      (r : Bytes × InternalEntry) (rs : Map InternalEntry)
      → 16 + length (first_key (r ∷ rs)) ≤ length (records (r ∷ rs))
  unfolding first_key records
  first_key-le (k, e) rs =
      omega (arith, length-append (record_bytes (k, e)) (records rs), length-record_bytes (k, e))

  -- And the index is no longer than the records.
  pub length-index_of :
      (offset : ℕ) (bs : List (Map InternalEntry))
      → All IsSome bs
      → length (index_entries (index_of crc32 offset bs)) ≤ length (records (contents bs))
  unfolding index_of index_entries contents
  length-index_of offset [] s = omega arith
  length-index_of offset ([] ∷ bs) s = absurd s.0
  length-index_of offset ((r ∷ rs) ∷ bs) s = omega (
    arith,
    length-append (index_entry (entry_of offset (r ∷ rs)))
        (index_entries (index_of crc32 (offset + length (block crc32 (r ∷ rs))) bs)),
    length-index_entry (entry_of offset (r ∷ rs)),
    first_key-le r rs,
    length-records_append (r ∷ rs) (contents bs),
    length-index_of (offset + length (block crc32 (r ∷ rs))) bs s.1,
  )

  pub index_of-EntryFits :
      (offset : ℕ) (bs : List (Map InternalEntry))
      → All IsSome bs
      → All BlockFits bs
      → offset + length (blocks_bytes crc32 bs) < 2 ^ 64
      → All EntryFits (index_of crc32 offset bs)
  unfolding index_of blocks_bytes first_key
  index_of-EntryFits offset [] s f size = tt
  index_of-EntryFits offset ([] ∷ bs) s f size = absurd s.0
  index_of-EntryFits offset (((k, e) ∷ rs) ∷ bs) s f size =
      let b : Map InternalEntry = (k, e) ∷ rs in
      let total = length-append (block crc32 b) (blocks_bytes crc32 bs) in
      (
        record {
          key_fits = f.0.all_fit.0.key_fits;
          offset_fits = omega arith;
          size_fits = omega arith;
        },
        index_of-EntryFits (offset + length (block crc32 b)) bs s.1 f.1 (omega (arith, total)),
      )
