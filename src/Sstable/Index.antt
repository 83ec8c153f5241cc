-- ===== src/Sstable/Index.antt =====
-- The sparse index of a table: the block that `lookupEntry` picks is the one that can hold the key.
use kronos_engine.Prelude.{
  ℕ, ◌≡◌, refl, sym, ap, ◌∙◌, List, [], ◌∷◌, ◌++◌, Bytes, length, none, some, ok, All, All-split,
  All-imp, arith, str_lt, str_le, ◌≺◌, compare_refl, eq_of_compare, gt_of_lt, lt_of_gt, lt_trans,
  true, false, inl, inr, Bool-cases, append-nil, subst,
}
use kronos_engine.Types.{InternalEntry}
use kronos_engine.OrderedMap.{Map, find, Above, IsAscending}
use kronos_engine.OrderedMap.Laws.{find-Above, Above-trans}
use kronos_engine.Sstable.Format.{SparseIndexEntry}
use kronos_engine.Sstable.Reader.{read_at}
use kronos_engine.Sstable.Lookup.{target_block, search_index}
use kronos_engine.Sstable.Blocks.{block, BlockFits, search_block-block}

module _ {ℓ} {V : Type ℓ} where
  pub find-append :
      (k : Bytes) (xs ys : Map V)
      → find k (xs ++ ys) ≡ elim (find k xs) [ none ↦ find k ys | some v ↦ some v ]
  unfolding find
  find-append k [] ys = refl
  find-append k ((j, v) ∷ xs) ys = ground (arith, find-append k xs ys)

  -- One part does not have the key.
  find_left : (k : Bytes) (xs ys : Map V) → find k ys ≡ none → find k (xs ++ ys) ≡ find k xs
  find_left k xs ys h = ground (arith, find-append k xs ys)

  find_right : (k : Bytes) (xs ys : Map V) → find k xs ≡ none → find k (xs ++ ys) ≡ find k ys
  find_right k xs ys h = ground (arith, find-append k xs ys)

  pub record Split (xs ys : Map V) : Type 0 where
    pub left : IsAscending xs
    pub right : IsAscending ys
    pub across : All (λ e. Above e.0 ys) xs

  -- A map in two parts.
  pub ascending-Split : (xs ys : Map V) → IsAscending (xs ++ ys) → Split xs ys
  ascending-Split [] ys a = record { left = tt; right = a; across = tt }
  ascending-Split ((j, v) ∷ xs) ys a =
      let rest = ascending-Split xs ys a.1 in
      let (near, far) = All-split (λ e. j ≺ e.0) xs ys a.0 in
      record { left = (near, rest.left); right = rest.right; across = (far, rest.across) }

  -- Keys before one that the key is not before.
  find_past :
      (k j : Bytes) (xs : Map V) → All (λ e. e.0 ≺ j) xs → str_le j k ≡ true → find k xs ≡ none
  unfolding find
  find_past k j [] a h = refl
  find_past k j ((i, v) ∷ xs) a h = ground (
    arith,
    find_past k j xs a.1 h,
    lt_trans i j k a.0,
    eq_of_compare i k,
    eq_of_compare j k,
    compare_refl k,
    gt_of_lt i j a.0,
  )

  abbrev pub StartsAt : Bytes → Map V → Type 0
  StartsAt k [] = ⊥
  StartsAt k ((j, v) ∷ m) = j ≡ k

  All-before :
      (k : Bytes) (xs ys : Map V)
      → StartsAt k ys
      → All (λ e. Above e.0 ys) xs
      → All (λ e. e.0 ≺ k) xs
  All-before k xs [] s a = absurd s
  All-before k xs ((j, v) ∷ ys) s a = All-imp (λ e h. subst (λ i. e.0 ≺ i) s h.0) xs a

  find_before :
      (k j : Bytes) (ys : Map V)
      → StartsAt j ys
      → IsAscending ys
      → str_le j k ≡ false
      → find k ys ≡ none
  find_before k j [] s a h = absurd s
  find_before k j ((i, v) ∷ ys) s a h =
      let before : k ≺ j = ground (arith, lt_of_gt j k) in
      let first : k ≺ i = subst (λ x. k ≺ x) (sym s) before in
      find-Above k ((i, v) ∷ ys) (first, Above-trans k i ys first a.0)

unfoldable pub contents : List (Map InternalEntry) → Map InternalEntry
contents [] = []
contents (b ∷ bs) = b ++ contents bs

module _ (crc32 : Bytes → ℕ) (file : Bytes) where
  starts_append : (k : Bytes) (xs ys : Map InternalEntry) → StartsAt k xs → StartsAt k (xs ++ ys)
  starts_append k [] ys s = absurd s
  starts_append k ((j, v) ∷ xs) ys s = s

  -- An entry of the index is that of a block of the file.
  pub record Points (e : SparseIndexEntry) (b : Map InternalEntry) : Type 0 where
    pub fits : BlockFits b
    pub starts : StartsAt e.first_key b
    pub size : e.block_size ≡ length (block crc32 b)
    pub placed : read_at e.block_offset e.block_size file ≡ ok (block crc32 b)

  abbrev pub PointsAll : List SparseIndexEntry → List (Map InternalEntry) → Type 0
  PointsAll [] [] = Unit {0}
  PointsAll [] (b ∷ bs) = ⊥
  PointsAll (e ∷ es) [] = ⊥
  PointsAll (e ∷ es) (b ∷ bs) = Points e b × PointsAll es bs

  -- A block that answers for the whole table at the key.
  record Target (key : Bytes) (e : SparseIndexEntry) (all : Map InternalEntry) : Type 0 where
    records : Map InternalEntry
    points : Points e records
    ascending : IsAscending records
    same : find key all ≡ find key records

  target :
      (key : Bytes) (e : SparseIndexEntry) (es : List SparseIndexEntry) (b : Map InternalEntry)
      (bs : List (Map InternalEntry))
      → Points e b
      → PointsAll es bs
      → IsAscending (b ++ contents bs)
      → Target key (target_block key e es) (b ++ contents bs)
  unfolding target_block contents
  target key e [] b [] p q a = record {
    records = b;
    points = p;
    ascending = subst IsAscending (append-nil b) a;
    same = ap (find key) (append-nil b);
  }
  target key e [] b (c ∷ bs) p q a = absurd q
  target key e (f ∷ es) b [] p q a = absurd q
  target key e (f ∷ es) b (c ∷ bs) p q a =
      let s = ascending-Split b (c ++ contents bs) a in
      elim (Bool-cases (str_le f.first_key key)) [
        | inl h ↦
            let t = target key f es c bs q.0 q.1 s.right in
            let none_left : find key b ≡ none =
              find_past key f.first_key b
                (All-before f.first_key b (c ++ contents bs)
                  (starts_append f.first_key c (contents bs) q.0.starts) s.across)
                h in
            rw h (record {
              records = t.records;
              points = t.points;
              ascending = t.ascending;
              same = find_right key b (c ++ contents bs) none_left ∙ t.same;
            })
        | inr h ↦
            let none_right : find key (c ++ contents bs) ≡ none =
              find_before key f.first_key (c ++ contents bs)
                (starts_append f.first_key c (contents bs) q.0.starts) s.right h in
            rw h (record {
              records = b;
              points = p;
              ascending = s.left;
              same = find_left key b (c ++ contents bs) none_right;
            })
      ]

  -- The search of the index answers what the map of the whole table holds.
  pub search_index-contents :
      (key : Bytes) (es : List SparseIndexEntry) (bs : List (Map InternalEntry))
      → PointsAll es bs
      → IsAscending (contents bs)
      → search_index crc32 file key es ≡ ok (find key (contents bs))
  unfolding search_index contents
  search_index-contents key [] [] p a = unfold find in refl
  search_index-contents key [] (b ∷ bs) p a = absurd p
  search_index-contents key (e ∷ es) [] p a = absurd p
  search_index-contents key (e ∷ es) (b ∷ bs) p a =
      let t = target key e es b bs p.0 p.1 a in
      elim (Bool-cases (str_le e.first_key key)) [
        | inl h ↦
            let on : str_lt key e.first_key ≡ false = ground (arith, gt_of_lt key e.first_key) in
            rw (on, t.points.placed, t.same)
              (search_block-block crc32 t.records t.points.fits key t.ascending)
        | inr h ↦
            let out : str_lt key e.first_key ≡ true = ground (arith, lt_of_gt e.first_key key) in
            rw
              (
                out,
                find_before key e.first_key (b ++ contents bs)
                    (starts_append e.first_key b (contents bs) p.0.starts) a h,
              )
              refl
      ]
