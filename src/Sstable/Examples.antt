-- ===== src/Sstable/Examples.antt =====
-- The theorems on tables at two entries in two blocks: a checksum that adds the bytes stands for
-- zlib's, and a hash that adds them for MurmurHash3, with seven probes.
use kronos_engine.Prelude.{
  ℕ, ◌+◌, ◌^◌, ◌<◌, ◌≡◌, refl, none, ok, List, [], ◌∷◌, ◌++◌, Bytes, length, All, arith,
  compare_bytes,
}
use kronos_engine.Types.{InternalEntry, put, delete}
use kronos_engine.Codec.{encode_to_le}
use kronos_engine.Io.{WriteReturn, wrote, synced}
use kronos_engine.OrderedMap.{Map, IsAscending, find}
use kronos_engine.Sstable.Format.{record_bytes, header, block_parts}
use kronos_engine.Sstable.Writing.{write_all, write_parts}
use kronos_engine.Sstable.Builder.{
  create, add_entries, add_entry, make_room, is_full, is_empty, is_refused, append_record,
  flush_current_block, start_block, written, published,
}
use kronos_engine.Sstable.Blocks.{records, BlockFits}
use kronos_engine.Sstable.Index.{contents, PointsAll, search_index-contents}
use kronos_engine.Sstable.Lookup.{search_index}
use kronos_engine.Sstable.Layout.{blocks_bytes, index_of, IsSome, Within}
use kronos_engine.Sstable.Finished.{index_of-PointsAll}
use kronos_engine.Sstable.Build.{build_table, build_table-Ends, add_entries-Within}
use kronos_engine.Sstable.Build.Finishing.{Ends, TableFits}

abbrev byte_sum : Bytes → ℕ
byte_sum [] = 0
byte_sum (b ∷ bs) = b + byte_sum bs

abbrev byte_hash : Bytes → ℕ → ℕ
byte_hash [] seed = seed
byte_hash (b ∷ bs) seed = b + byte_hash bs seed

abbrev seven_probes : ℕ → ℕ
seven_probes n = 7

-- PUT "a" ↦ "b" with number 7, and DELETE "c" with number 9.
abbrev entries : Map InternalEntry
entries =
    (97 ∷ [], record { value = 98 ∷ []; sequence = 7; operation = put })
    ∷ (99 ∷ [], record { value = []; sequence = 9; operation = delete })
    ∷ []

abbrev many : WriteReturn
many = wrote 1000

abbrev writes : List WriteReturn
writes =
    many ∷ many ∷ many ∷ many ∷ many ∷ many ∷ many ∷ many ∷ many ∷ many ∷ many ∷ many ∷ many ∷ many
    ∷ many ∷ many ∷ []

entries-fit : TableFits seven_probes 10 entries
unfolding records record_bytes encode_to_le
entries-fit = record {
  all_fit = (
    record { key_fits = omega arith; value_fits = omega arith; sequence_fits = omega arith },
    (record { key_fits = omega arith; value_fits = omega arith; sequence_fits = omega arith }, tt),
  );
  records_fit = omega arith;
  bits_fit = omega arith;
  probes_fit = omega arith;
}

build_table-Ends_example :
    Ends byte_sum byte_hash entries none (
      build_table byte_sum byte_hash seven_probes 30 10 entries none writes (synced ∷ []) published)
build_table-Ends_example =
    build_table-Ends byte_sum byte_hash seven_probes 10 entries entries-fit 30 none writes
      (synced ∷ []) published

opened : (create 30 10 writes).result ≡ ok tt
unfolding create written write_parts write_all encode_to_le
opened = refl

added :
    (add_entries byte_sum (create 30 10 writes).builder entries (create 30 10 writes).later).result
    ≡ ok tt
unfolding create written write_parts write_all encode_to_le add_entries add_entry make_room is_full
    is_empty is_refused append_record flush_current_block start_block record_bytes block_parts
    compare_bytes
added = refl

small : 8 + length (records entries) < 2 ^ 64
unfolding records record_bytes encode_to_le
small = omega arith

add_entries-Within_example :
    (blocks : List (Map InternalEntry)) × (pending : Map InternalEntry) × (contents blocks
        ++ pending
      ≡ entries)
    × IsAscending entries
    × ((add_entries byte_sum
          (create 30 10 writes).builder
          entries
          (create 30 10 writes).later).builder.file
        ≡ header ++ blocks_bytes byte_sum blocks)
    × ((add_entries byte_sum
          (create 30 10 writes).builder
          entries
          (create 30 10 writes).later).builder.sparse_index
        ≡ index_of byte_sum 8 blocks)
    × All IsSome blocks
    × All (Within 30) blocks
    × Within 30 pending
add_entries-Within_example = add_entries-Within byte_sum 30 10 entries writes opened small added

abbrev two_blocks : List (Map InternalEntry)
two_blocks =
    ((97 ∷ [], record { value = 98 ∷ []; sequence = 7; operation = put }) ∷ [])
    ∷ ((99 ∷ [], record { value = []; sequence = 9; operation = delete }) ∷ [])
    ∷ []

first_fits : BlockFits ((97 ∷ [], record { value = 98 ∷ []; sequence = 7; operation = put }) ∷ [])
unfolding records record_bytes encode_to_le
first_fits = record {
  all_fit = (entries-fit.all_fit.0, tt);
  some_records = omega arith;
  size_fits = omega arith;
}

second_fits : BlockFits ((99 ∷ [], record { value = []; sequence = 9; operation = delete }) ∷ [])
unfolding records record_bytes encode_to_le
second_fits = record {
  all_fit = (entries-fit.all_fit.1.0, tt);
  some_records = omega arith;
  size_fits = omega arith;
}

abbrev file : Bytes
file = blocks_bytes byte_sum two_blocks ++ []

points : PointsAll byte_sum file (index_of byte_sum 0 two_blocks) two_blocks
points = index_of-PointsAll byte_sum [] [] two_blocks (tt, (tt, tt)) (first_fits, (second_fits, tt))

ascending : IsAscending (contents two_blocks)
unfolding contents compare_bytes
ascending = ((refl, tt), (tt, tt))

search_index-contents_example :
    search_index byte_sum file (99 ∷ []) (index_of byte_sum 0 two_blocks)
    ≡ ok (find (99 ∷ []) (contents two_blocks))
search_index-contents_example =
    search_index-contents byte_sum file (99 ∷ []) (index_of byte_sum 0 two_blocks) two_blocks points
      ascending
