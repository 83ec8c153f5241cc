-- ===== src/Compactor.antt =====
-- src/compactor.cpp: the K-way merge. The input is what the iterators of the SSTables read, one list
-- for each. An item of the heap holds its iterator in place of its index, and stands for its key,
-- which is the iterator's; the heap has no exhausted iterator. The priority queue gives a smallest
-- key; among equal keys its order is open, and here the one that was pushed first comes first.
pub mod Ends
pub mod Heap
pub mod Order
pub mod Held
pub mod Newest
pub mod Complete
mod Examples
use kronos_engine.Prelude.{
  ℕ, zero, suc, ◌+◌, Bool, true, false, not, ◌&&◌, Option, none, some, List, [], ◌∷◌, ◌++◌, Bytes,
  length, ltb, str_eq, str_lt, if◌then◌else◌,
}
use kronos_engine.Types.{InternalEntry, OperationType, delete, put}
use kronos_engine.OrderedMap.{Map}

-- An iterator that is valid: its current key and entry, and the rest of its table.
pub record HeapItem : Type 0 where
  pub key : Bytes
  pub entry : InternalEntry
  pub rest : Map InternalEntry

-- `if (iterator.valid()) heap.push(...)`
unfoldable pub push : Map InternalEntry → List HeapItem → List HeapItem
push [] heap = heap
push ((k, e) ∷ rest) heap = heap ++ record { key = k; entry = e; rest = rest } ∷ []

unfoldable pub push_all : List (Map InternalEntry) → List HeapItem → List HeapItem
push_all [] heap = heap
push_all (table ∷ tables) heap = push_all tables (push table heap)

-- The key at the top of a heap that holds an item.
unfoldable pub top_key : HeapItem → List HeapItem → Bytes
top_key item [] = item.key
top_key item (other ∷ heap) =
    let rest = top_key other heap in if str_lt rest item.key then rest else item.key

-- The items that are popped while the top has this key, and those that stay.
unfoldable pub same_key : Bytes → List HeapItem → List HeapItem
same_key key [] = []
same_key key (item ∷ heap) =
    if str_eq item.key key then item ∷ same_key key heap else same_key key heap

unfoldable pub other_keys : Bytes → List HeapItem → List HeapItem
other_keys key [] = []
other_keys key (item ∷ heap) =
    if str_eq item.key key then other_keys key heap else item ∷ other_keys key heap

-- The loop that picks the winner.
unfoldable pub pick_winner : InternalEntry → List HeapItem → InternalEntry
pick_winner winner [] = winner
pick_winner winner (item ∷ items) =
    pick_winner (if ltb winner.sequence item.entry.sequence then item.entry else winner) items

abbrev pub should_write : Bool → InternalEntry → Bool
should_write can_drop_tombstones winner = elim winner.operation [
  | delete ↦ not can_drop_tombstones
  | put ↦ true
]

-- `iterators[index].next()`, and the push, for every item that was popped.
unfoldable pub advance_all : List HeapItem → List HeapItem → List HeapItem
advance_all [] heap = heap
advance_all (item ∷ items) heap = advance_all items (push item.rest heap)

-- One round of the loop from the popped items on: the winner's record is written or not.
abbrev pub emit : Bool → Bytes → InternalEntry → Map InternalEntry → Map InternalEntry
emit can_drop_tombstones key winner later =
    if should_write can_drop_tombstones winner then (key, winner) ∷ later else later

abbrev winner_of : List HeapItem → InternalEntry → InternalEntry
winner_of [] default = default
winner_of (first ∷ others) default = pick_winner first.entry (first ∷ others)

-- `while (!heap.empty())`: what is added to the builder. A round takes an entry from some table.
unfoldable pub merge_loop : ℕ → Bool → List HeapItem → Option (Map InternalEntry)
merge_loop fuel can_drop [] = some []
merge_loop zero can_drop (item ∷ heap) = none
merge_loop (suc fuel) can_drop (item ∷ heap) =
    let key = top_key item heap in
    let same = same_key key (item ∷ heap) in
    let winner = winner_of same item.entry in
    elim (merge_loop fuel can_drop (advance_all same (other_keys key (item ∷ heap)))) [
      | none ↦ none
      | some later ↦ some (emit can_drop key winner later)
    ]

unfoldable pub count_entries : List (Map InternalEntry) → ℕ
count_entries [] = 0
count_entries (table ∷ tables) = length table + count_entries tables

-- The records of the output; without one there is no output file.
pub merge : Bool → List (Map InternalEntry) → Option (Map InternalEntry)
merge can_drop tables = merge_loop (count_entries tables) can_drop (push_all tables [])
