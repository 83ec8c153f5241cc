-- ===== src/Memtable/Examples.antt =====
-- The memtable's theorems at a table of one key.
use kronos_engine.Prelude.{
  ◌-◌, ◌^◌, ◌≤◌, ◌≡◌, ◌≢◌, refl, none, some, [], ◌∷◌, All, ltb, compare_bytes, arith,
}
use kronos_engine.Types.{InternalEntry, put, delete}
use kronos_engine.OrderedMap.{find, insert_or_assign}
use kronos_engine.Memtable.{
  Memtable, success, frozen, init, would_exceed_target, store, write_mutable, write, put_entry,
  remove_entry, lookup_entry, freeze,
}
use kronos_engine.Memtable.Accounting.{
  IsValid, init-IsValid, operations-IsValid, would_exceed_target-put_entry,
}
use kronos_engine.Memtable.Versions.{
  Write, Written, apply, apply_all, newest, apply-frozen, lookup_entry-apply_all,
  lookup_entry-newest,
}

abbrev a_put : Write
a_put = record { key = 97 ∷ []; value = 98 ∷ []; sequence = 4; operation = put }

-- An older write, which comes late.
abbrev a_delete : Write
a_delete = record { key = 97 ∷ []; value = []; sequence = 3; operation = delete }

abbrev table : Memtable
table = (put_entry (init 100) (97 ∷ []) (98 ∷ []) 4).0

table-IsValid : IsValid table
table-IsValid = (operations-IsValid (init 100) (97 ∷ []) (98 ∷ []) 4 (init-IsValid 100)).0

operations-IsValid_example :
    IsValid (put_entry table (97 ∷ []) (99 ∷ []) 5).0
    × IsValid (remove_entry table (97 ∷ []) 5).0
    × IsValid (freeze table).0
operations-IsValid_example = operations-IsValid table (97 ∷ []) (99 ∷ []) 5 table-IsValid

accepts : (put_entry table (97 ∷ []) (99 ∷ []) 5).1 ≡ success
unfolding put_entry write write_mutable store init find insert_or_assign compare_bytes
accepts = refl

would_exceed_target-put_entry_example :
    would_exceed_target table
      (97 ∷ [])
      (record { value = 99 ∷ []; sequence = 2 ^ 64 - 1; operation = put })
    ≡ ltb table.target_bytes (put_entry table (97 ∷ []) (99 ∷ []) 5).0.memory_usage
would_exceed_target-put_entry_example =
    would_exceed_target-put_entry table (97 ∷ []) (99 ∷ []) 5 (omega arith) accepts

apply-frozen_example : apply (freeze table).0 a_delete ≡ ((freeze table).0, frozen)
apply-frozen_example = apply-frozen table a_delete

lookup_entry-apply_all_example :
    lookup_entry (apply_all (init 100) (a_put ∷ a_delete ∷ [])) (97 ∷ [])
    ≡ newest (97 ∷ []) (lookup_entry (init 100) (97 ∷ [])) (a_put ∷ a_delete ∷ [])
lookup_entry-apply_all_example =
    lookup_entry-apply_all (init 100) (a_put ∷ a_delete ∷ []) (97 ∷ []) (unfold init in refl)

lookup_entry-newest_example :
    ((e : InternalEntry)
      → lookup_entry (apply_all (init 100) (a_put ∷ a_delete ∷ [])) (97 ∷ []) ≡ some e
      → Written (97 ∷ []) e (a_put ∷ a_delete ∷ [])
        × All (λ w. w.key ≡ 97 ∷ [] → w.sequence ≤ e.sequence) (a_put ∷ a_delete ∷ []))
    × (lookup_entry (apply_all (init 100) (a_put ∷ a_delete ∷ [])) (97 ∷ []) ≡ none
        → All (λ w. w.key ≢ 97 ∷ []) (a_put ∷ a_delete ∷ []))
lookup_entry-newest_example = lookup_entry-newest 100 (a_put ∷ a_delete ∷ []) (97 ∷ [])
