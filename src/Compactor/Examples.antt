-- ===== src/Compactor/Examples.antt =====
-- The theorems on the merge at two tables that share a key.
use kronos_engine.Prelude.{
  refl, compare_bytes, ◌≤◌, ◌⊎◌, inl, ℕ, ◌≡◌, true, some, List, [], ◌∷◌, All,
}
use kronos_engine.Types.{InternalEntry, OperationType, put, delete}
use kronos_engine.OrderedMap.{Map, IsAscending}
use kronos_engine.Compactor.{
  merge, merge_loop, push, push_all, top_key, same_key, other_keys, pick_winner, advance_all,
  count_entries,
}
use kronos_engine.Compactor.Newest.{InTables, merge-newest}
use kronos_engine.Compactor.Complete.{merge_complete}
use kronos_engine.Compactor.Held.{InTable}
use kronos_engine.Compactor.Order.{merge-IsAscending}

abbrev entry_of : ℕ → OperationType → InternalEntry
entry_of n operation = record { value = []; sequence = n; operation = operation }

abbrev tables : List (Map InternalEntry)
tables =
    ((97 ∷ [], entry_of 1 put) ∷ (98 ∷ [], entry_of 2 put) ∷ [])
    ∷ ((97 ∷ [], entry_of 3 delete) ∷ (99 ∷ [], entry_of 4 put) ∷ [])
    ∷ []

merge-IsAscending_example :
    (out : Map InternalEntry) × (merge true tables ≡ some out)
    × (All IsAscending tables → IsAscending out)
merge-IsAscending_example = merge-IsAscending true tables

abbrev merged : Map InternalEntry
merged = (98 ∷ [], entry_of 2 put) ∷ (99 ∷ [], entry_of 4 put) ∷ []

merges : merge true tables ≡ some merged
unfolding merge merge_loop push push_all top_key same_key other_keys pick_winner advance_all
    count_entries compare_bytes
merges = refl

tables-IsAscending : All IsAscending tables
unfolding compare_bytes
tables-IsAscending = (((refl, tt), (tt, tt)), (((refl, tt), (tt, tt)), tt))

merge-newest_example :
    InTables (98 ∷ []) (entry_of 2 put) tables
    × ((e : InternalEntry) → InTables (98 ∷ []) e tables → e.sequence ≤ 2)
merge-newest_example =
    merge-newest true tables merged (98 ∷ []) (entry_of 2 put) tables-IsAscending merges
      (inl (refl, refl))

-- The key with the tombstone, which the output has no record of.
merge_complete_example :
    ((w : InternalEntry) × InTable (97 ∷ []) w merged)
    ⊎ ((w : InternalEntry) × InTables (97 ∷ []) w tables
        × ((v : InternalEntry) → InTables (97 ∷ []) v tables → v.sequence ≤ w.sequence)
        × (w.operation ≡ delete)
        × (true ≡ true))
merge_complete_example =
    merge_complete true tables merged (97 ∷ []) (entry_of 1 put) tables-IsAscending merges
      (inl (inl (refl, refl)))
