-- ===== src/Compactor/Heap.antt =====
-- The heap: its top, what is popped and what stays, and the order of the keys.
use kronos_engine.Prelude.{
  ◌≡◌, inl, inr, refl, sym, subst, false, List, [], ◌∷◌, Bytes, str_eq, str_lt, str_eq_iff, ◌≺◌,
  compare_refl, eq_of_compare, lt_of_gt, gt_of_lt, lt_trans, All, All-append, All-imp, Bool-cases,
  arith,
}
use kronos_engine.Types.{InternalEntry}
use kronos_engine.OrderedMap.{Map, Above, IsAscending}
use kronos_engine.Compactor.{HeapItem, push, top_key, same_key, other_keys, advance_all}

-- Every key that the iterator has not passed is after `b`, and its keys ascend.
abbrev pub Beyond : Bytes → HeapItem → Type 0
Beyond b item = b ≺ item.key

abbrev pub Ascends : HeapItem → Type 0
Ascends item = Above item.key item.rest × IsAscending item.rest

pub push-Ascends :
    (table : Map InternalEntry) (heap : List HeapItem)
    → IsAscending table
    → All Ascends heap
    → All Ascends (push table heap)
unfolding push
push-Ascends [] heap t a = a
push-Ascends ((k, e) ∷ rest) heap t a =
    All-append Ascends heap (record { key = k; entry = e; rest = rest } ∷ []) a (t, tt)

push-Beyond :
    (b : Bytes) (table : Map InternalEntry) (heap : List HeapItem)
    → Above b table
    → All (Beyond b) heap
    → All (Beyond b) (push table heap)
unfolding push
push-Beyond b [] heap t a = a
push-Beyond b ((k, e) ∷ rest) heap t a =
    All-append (Beyond b) heap (record { key = k; entry = e; rest = rest } ∷ []) a (t.0, tt)

pub advance_all-Ascends :
    (items heap : List HeapItem)
    → All Ascends items
    → All Ascends heap
    → All Ascends (advance_all items heap)
unfolding advance_all
advance_all-Ascends [] heap t a = a
advance_all-Ascends (item ∷ items) heap t a =
    advance_all-Ascends items (push item.rest heap) t.1 (push-Ascends item.rest heap t.0.1 a)

pub advance_all-Beyond :
    (b : Bytes) (items heap : List HeapItem)
    → All (λ item. Above b item.rest) items
    → All (Beyond b) heap
    → All (Beyond b) (advance_all items heap)
unfolding advance_all
advance_all-Beyond b [] heap t a = a
advance_all-Beyond b (item ∷ items) heap t a =
    advance_all-Beyond b items (push item.rest heap) t.1 (push-Beyond b item.rest heap t.0 a)

pub same_key-All {κ} :
    (P : HeapItem → Type κ) (key : Bytes) (heap : List HeapItem)
    → All P heap
    → All P (same_key key heap)
unfolding same_key
same_key-All P key [] a = tt
same_key-All P key (item ∷ heap) a = elim (Bool-cases (str_eq item.key key)) [
  | inl same ↦ rw same (a.0, same_key-All P key heap a.1)
  | inr other ↦ rw other (same_key-All P key heap a.1)
]

pub other_keys-All {κ} :
    (P : HeapItem → Type κ) (key : Bytes) (heap : List HeapItem)
    → All P heap
    → All P (other_keys key heap)
unfolding other_keys
other_keys-All P key [] a = tt
other_keys-All P key (item ∷ heap) a = elim (Bool-cases (str_eq item.key key)) [
  | inl same ↦ rw same (other_keys-All P key heap a.1)
  | inr other ↦ rw other (a.0, other_keys-All P key heap a.1)
]

-- What is popped is read from its key on.
pub same_key-Above :
    (key : Bytes) (heap : List HeapItem)
    → All Ascends heap
    → All (λ item. Above key item.rest) (same_key key heap)
unfolding same_key
same_key-Above key [] a = tt
same_key-Above key (item ∷ heap) a = elim (Bool-cases (str_eq item.key key)) [
  | inl same ↦ rw same (
    subst (λ k. Above k item.rest) ((str_eq_iff item.key key).0 same) a.0.0,
    same_key-Above key heap a.1,
  )
  | inr other ↦ rw other (same_key-Above key heap a.1)
]

-- No key of the heap is below the top.
abbrev pub NotBelow : Bytes → HeapItem → Type 0
NotBelow key item = str_lt item.key key ≡ false

not_below_trans : (a b c : Bytes) → str_lt b a ≡ false → str_lt c b ≡ false → str_lt c a ≡ false
not_below_trans a b c h k = ground (
  arith,
  lt_trans c a b,
  lt_trans b c a,
  eq_of_compare a b,
  eq_of_compare b a,
  eq_of_compare c b,
  lt_of_gt b a,
  lt_of_gt c b,
)

pub top_key-NotBelow :
    (item : HeapItem) (heap : List HeapItem) → All (NotBelow (top_key item heap)) (item ∷ heap)
unfolding top_key
top_key-NotBelow item [] = (ground (arith, compare_refl item.key), tt)
top_key-NotBelow item (other ∷ heap) =
    let least = top_key-NotBelow other heap in
    elim (Bool-cases (str_lt (top_key other heap) item.key)) [
      | inl less ↦
          subst (λ k. All (NotBelow k) (item ∷ other ∷ heap)) (sym (rw less refl))
            (ground (arith, gt_of_lt (top_key other heap) item.key), least)
      | inr more ↦
          subst (λ k. All (NotBelow k) (item ∷ other ∷ heap)) (sym (rw more refl))
            (
              ground (arith, compare_refl item.key),
              All-imp (λ x h. not_below_trans item.key (top_key other heap) x.key more h)
                  (other ∷ heap) least,
            )
    ]

pub top_key-Beyond :
    (b : Bytes) (item : HeapItem) (heap : List HeapItem)
    → All (Beyond b) (item ∷ heap)
    → b ≺ top_key item heap
unfolding top_key
top_key-Beyond b item [] a = a.0
top_key-Beyond b item (other ∷ heap) a = ground (arith, top_key-Beyond b other heap a.1)

-- What stays on the heap is after the top.
pub other_keys-Beyond :
    (key : Bytes) (heap : List HeapItem)
    → All (NotBelow key) heap
    → All (Beyond key) (other_keys key heap)
unfolding other_keys
other_keys-Beyond key [] a = tt
other_keys-Beyond key (item ∷ heap) a = elim (Bool-cases (str_eq item.key key)) [
  | inl same ↦ rw same (other_keys-Beyond key heap a.1)
  | inr other ↦ rw other (ground (arith, lt_of_gt item.key key), other_keys-Beyond key heap a.1)
]
