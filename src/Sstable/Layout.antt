-- ===== src/Sstable/Layout.antt =====
-- What a builder has written and holds, after any calls of `add` that returned.
use kronos_engine.Prelude.{
  ℕ, ◌+◌, ◌%◌, ◌^◌, ◌≤◌, ◌≡◌, ◌⊎◌, refl, sym, ap, ◌∙◌, List, [], ◌∷◌, ◌++◌, Bytes, length, map,
  append-nil, append_assoc, length-append, Option, none, some, All, All-append, arith, ◌≺◌,
  lt_of_gt, lt_trans, false,
}
use kronos_engine.Types.{InternalEntry}
use kronos_engine.OrderedMap.{Map, IsAscending, Above}
use kronos_engine.Sstable.Format.{SparseIndexEntry, header}
use kronos_engine.Sstable.Builder.{SstableBuilder, is_refused}
use kronos_engine.Sstable.Blocks.{block, records}
use kronos_engine.Sstable.Index.{contents}

unfoldable pub first_key : Map InternalEntry → Bytes
first_key [] = []
first_key ((k, e) ∷ rs) = k

unfoldable pub last_key : Map InternalEntry → Option Bytes
last_key [] = none
last_key ((k, e) ∷ []) = some k
last_key (r ∷ s ∷ rs) = last_key (s ∷ rs)

unfoldable pub blocks_bytes : (Bytes → ℕ) → List (Map InternalEntry) → Bytes
blocks_bytes crc32 [] = []
blocks_bytes crc32 (b ∷ bs) = block crc32 b ++ blocks_bytes crc32 bs

-- The entry of the index for a block at an offset.
abbrev pub entry_of : ℕ → Map InternalEntry → SparseIndexEntry
entry_of offset b = record {
  first_key = first_key b;
  block_offset = offset;
  block_size = (4 + length (records b) + 4) % 2 ^ 32;
}

-- The index of blocks that stand in the file from an offset on.
unfoldable pub index_of : (Bytes → ℕ) → ℕ → List (Map InternalEntry) → List SparseIndexEntry
index_of crc32 offset [] = []
index_of crc32 offset (b ∷ bs) =
    entry_of offset b ∷ index_of crc32 (offset + length (block crc32 b)) bs

module _ (crc32 : Bytes → ℕ) where
  pub blocks_bytes-append :
      (bs : List (Map InternalEntry)) (b : Map InternalEntry)
      → blocks_bytes crc32 (bs ++ b ∷ []) ≡ blocks_bytes crc32 bs ++ block crc32 b
  unfolding blocks_bytes
  blocks_bytes-append [] b = append-nil (block crc32 b)
  blocks_bytes-append (c ∷ bs) b =
      ap (◌++◌ (block crc32 c)) (blocks_bytes-append bs b) ∙ sym (append_assoc (block crc32 c) _ _)

  pub index_of-append :
      (offset : ℕ) (bs : List (Map InternalEntry)) (b : Map InternalEntry)
      → index_of crc32 offset (bs ++ b ∷ [])
        ≡ index_of crc32 offset bs ++ entry_of (offset + length (blocks_bytes crc32 bs)) b ∷ []
  unfolding index_of blocks_bytes
  index_of-append offset [] b = let same : offset + 0 ≡ offset = omega arith in rw same refl
  index_of-append offset (c ∷ bs) b =
      let same : offset + length (block crc32 c) + length (blocks_bytes crc32 bs)
          ≡ offset + length (block crc32 c ++ blocks_bytes crc32 bs) =
        omega (arith, length-append (block crc32 c) (blocks_bytes crc32 bs)) in
      ap (◌∷◌ (entry_of offset c)) (
        index_of-append (offset + length (block crc32 c)) bs b
        ∙ ap (λ n. index_of crc32 (offset + length (block crc32 c)) bs ++ entry_of n b ∷ []) same)

pub contents-append :
    (bs : List (Map InternalEntry)) (b : Map InternalEntry)
    → contents (bs ++ b ∷ []) ≡ contents bs ++ b
unfolding contents
contents-append [] b = append-nil b
contents-append (c ∷ bs) b = ap (◌++◌ c) (contents-append bs b) ∙ sym (append_assoc c _ _)

-- A key past the last one keeps the keys ascending.
pub IsAscending-snoc :
    (m : Map InternalEntry) (k : Bytes) (e : InternalEntry)
    → IsAscending m
    → is_refused (last_key m) k ≡ false
    → IsAscending (m ++ (k, e) ∷ [])
unfolding last_key is_refused
IsAscending-snoc [] k e a h = (tt, tt)
IsAscending-snoc ((j, v) ∷ []) k e a h = ground (arith, lt_of_gt k j)
IsAscending-snoc ((j, v) ∷ (i, w) ∷ m) k e a h =
    let later = IsAscending-snoc ((i, w) ∷ m) k e a.1 h in
    let past : i ≺ k = last_of i m k e later.0 in
    (
      All-append (λ x. j ≺ x.0) ((i, w) ∷ m) ((k, e) ∷ []) a.0 (lt_trans j i k a.0.0 past, tt),
      later,
    )
  where
    last_of :
        (i : Bytes) (m : Map InternalEntry) (k : Bytes) (e : InternalEntry)
        → Above i (m ++ (k, e) ∷ [])
        → i ≺ k
    last_of i [] k e a = a.0
    last_of i (x ∷ m) k e a = last_of i m k e a.1

pub last_key-append :
    (m : Map InternalEntry) (k : Bytes) (e : InternalEntry) → last_key (m ++ (k, e) ∷ []) ≡ some k
unfolding last_key
last_key-append [] k e = refl
last_key-append (x ∷ []) k e = refl
last_key-append (x ∷ y ∷ m) k e = last_key-append (y ∷ m) k e

abbrev pub IsSome : Map InternalEntry → Type 0
IsSome [] = ⊥
IsSome (r ∷ rs) = Unit {0}

-- A block of more than one record keeps within the target.
abbrev pub Within : ℕ → Map InternalEntry → Type 0
Within target b = (length b ≤ 1) ⊎ (8 + length (records b) ≤ target)

-- The builder has put the finished blocks `blocks` into the file and holds the records `pending`;
-- together they are the entries that were added.
pub record Holds (crc32 : Bytes → ℕ) (b : SstableBuilder) (all : Map InternalEntry)
    (blocks : List (Map InternalEntry)) (pending : Map InternalEntry) : Type 0 where
  pub all_there : contents blocks ++ pending ≡ all
  pub file_holds : b.file ≡ header ++ blocks_bytes crc32 blocks
  pub index_holds : b.sparse_index ≡ index_of crc32 8 blocks
  pub block_holds : b.current_block ≡ records pending
  pub count_holds : b.current_block_record_count ≡ length pending
  pub first_holds : b.current_block_first_key ≡ first_key pending
  pub keys_hold : b.bloom_keys ≡ map (λ r. r.0) all
  pub last_holds : b.last_key ≡ last_key all
  pub ascending : IsAscending all
  pub no_empty : All IsSome blocks
  pub within : All (Within b.target_block_size) blocks × Within b.target_block_size pending

pub record IsBuilder (crc32 : Bytes → ℕ) (b : SstableBuilder) (all : Map InternalEntry)
    : Type 0 where
  pub blocks : List (Map InternalEntry)
  pub pending : Map InternalEntry
  pub holds : Holds crc32 b all blocks pending
