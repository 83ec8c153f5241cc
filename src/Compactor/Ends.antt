-- ===== src/Compactor/Ends.antt =====
-- The merge ends: every round takes an entry from some table.
use kronos_engine.Prelude.{
  ℕ, zero, suc, ◌+◌, ◌<◌, ◌≤◌, ◌≡◌, refl, Bool, some, List, [], ◌∷◌, ◌++◌, Bytes, length,
  compare_refl, arith,
}
use kronos_engine.Types.{InternalEntry}
use kronos_engine.OrderedMap.{Map}
use kronos_engine.Compactor.{
  HeapItem, push, push_all, top_key, same_key, other_keys, advance_all, winner_of, emit, merge_loop,
  count_entries,
}

-- The entries that the iterators of the heap have not passed.
abbrev pub entries : List HeapItem → ℕ
entries [] = 0
entries (item ∷ heap) = 1 + length item.rest + entries heap

entries-append : (xs ys : List HeapItem) → entries (xs ++ ys) ≡ entries xs + entries ys
entries-append [] ys = omega arith
entries-append (x ∷ xs) ys = omega (arith, entries-append xs ys)

entries-push :
    (table : Map InternalEntry) (heap : List HeapItem)
    → entries (push table heap) ≡ length table + entries heap
unfolding push
entries-push [] heap = omega arith
entries-push ((k, e) ∷ rest) heap =
    omega (arith, entries-append heap (record { key = k; entry = e; rest = rest } ∷ []))

entries-advance_all :
    (items heap : List HeapItem)
    → entries (advance_all items heap) + length items ≡ entries items + entries heap
unfolding advance_all
entries-advance_all [] heap = omega arith
entries-advance_all (item ∷ items) heap =
    omega (arith, entries-advance_all items (push item.rest heap), entries-push item.rest heap)

entries-split :
    (key : Bytes) (heap : List HeapItem)
    → entries (same_key key heap) + entries (other_keys key heap) ≡ entries heap
unfolding same_key other_keys
entries-split key [] = refl
entries-split key (item ∷ heap) = ground (arith, entries-split key heap)

pub same_key-top :
    (item : HeapItem) (heap : List HeapItem)
    → 0 < length (same_key (top_key item heap) (item ∷ heap))
unfolding same_key top_key
same_key-top item [] = ground (arith, compare_refl item.key)
same_key-top item (other ∷ heap) = ground (arith, compare_refl item.key, same_key-top other heap)

pub merge_loop-some :
    (fuel : ℕ) (can_drop : Bool) (heap : List HeapItem)
    → entries heap ≤ fuel
    → (out : Map InternalEntry) × (merge_loop fuel can_drop heap ≡ some out)
unfolding merge_loop
merge_loop-some fuel can_drop [] h = ([], ground arith)
merge_loop-some zero can_drop (item ∷ heap) h = absurd (omega arith)
merge_loop-some (suc fuel) can_drop (item ∷ heap) h =
    let key = top_key item heap in
    let same = same_key key (item ∷ heap) in
    let others = other_keys key (item ∷ heap) in
    let (out, e) = merge_loop-some fuel can_drop (advance_all same others) (
      omega (
        arith,
        entries-advance_all same others,
        entries-split key (item ∷ heap),
        same_key-top item heap,
      )) in
    (emit can_drop key (winner_of same item.entry) out, rw (e, merge_loop) refl)

pub entries-push_all :
    (tables : List (Map InternalEntry)) (heap : List HeapItem)
    → entries (push_all tables heap) ≡ count_entries tables + entries heap
unfolding push_all count_entries
entries-push_all [] heap = omega arith
entries-push_all (table ∷ tables) heap =
    omega (arith, entries-push_all tables (push table heap), entries-push table heap)
