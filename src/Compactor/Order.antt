-- ===== src/Compactor/Order.antt =====
-- The output of the merge ascends.
use kronos_engine.Prelude.{
  ℕ, zero, suc, ◌≡◌, inl, inr, refl, subst, Bool, none, some, List, [], ◌∷◌, Bytes, ◌≺◌, All,
  Bool-cases, Option-cases, arith,
}
use kronos_engine.Types.{InternalEntry}
use kronos_engine.OrderedMap.{Map, Above, IsAscending}
use kronos_engine.OrderedMap.Laws.{Above-trans}
use kronos_engine.Compactor.{
  HeapItem, push, push_all, top_key, same_key, other_keys, advance_all, winner_of, emit,
  should_write, merge_loop, count_entries, merge,
}
use kronos_engine.Compactor.Ends.{merge_loop-some, entries-push_all}
use kronos_engine.Compactor.Heap.{
  Beyond, Ascends, push-Ascends, advance_all-Ascends, advance_all-Beyond, same_key-All,
  other_keys-All, same_key-Above, top_key-NotBelow, top_key-Beyond, other_keys-Beyond,
}

emit-IsAscending :
    (can_drop : Bool) (key : Bytes) (winner : InternalEntry) (later : Map InternalEntry)
    → Above key later
    → IsAscending later
    → IsAscending (emit can_drop key winner later)
      × ((b : Bytes) → b ≺ key → Above b (emit can_drop key winner later))
emit-IsAscending can_drop key winner later a s = elim (Bool-cases (should_write can_drop winner)) [
  | inl write ↦ rw write ((a, s), λ b h. (h, Above-trans b key later h a))
  | inr drop ↦ rw drop (s, λ b h. Above-trans b key later h a)
]

pub merge_loop-IsAscending :
    (fuel : ℕ) (can_drop : Bool) (heap : List HeapItem) (out : Map InternalEntry)
    → merge_loop fuel can_drop heap ≡ some out
    → All Ascends heap
    → IsAscending out × ((b : Bytes) → All (Beyond b) heap → Above b out)
unfolding merge_loop
merge_loop-IsAscending fuel can_drop [] out h a =
    let nothing : [] ≡ out = ground arith in
    subst (λ o. IsAscending o × ((b : Bytes) → Unit {0} → Above b o)) nothing (tt, λ b u. tt)
merge_loop-IsAscending zero can_drop (item ∷ heap) out h a = absurd (cc h)
merge_loop-IsAscending (suc fuel) can_drop (item ∷ heap) out h a =
    let key = top_key item heap in
    let same = same_key key (item ∷ heap) in
    let others = other_keys key (item ∷ heap) in
    elim (Option-cases (merge_loop fuel can_drop (advance_all same others))) [
      | inl e ↦
          let stops : merge_loop (suc fuel) can_drop (item ∷ heap) ≡ none =
            rw (e, merge_loop) refl in
          absurd (cc (stops, h))
      | inr (later, e) ↦
          let result : merge_loop (suc fuel) can_drop (item ∷ heap)
              ≡ some (emit can_drop key (winner_of same item.entry) later) =
            rw (e, merge_loop) refl in
          let (ascends, above) =
            merge_loop-IsAscending fuel can_drop (advance_all same others) later e (
              advance_all-Ascends same others (same_key-All Ascends key (item ∷ heap) a)
                (other_keys-All Ascends key (item ∷ heap) a)) in
          let after = above key (
            advance_all-Beyond key same others (same_key-Above key (item ∷ heap) a)
              (other_keys-Beyond key (item ∷ heap) (top_key-NotBelow item heap))) in
          let (all, from) =
            emit-IsAscending can_drop key (winner_of same item.entry) later after ascends in
          let same_out : emit can_drop key (winner_of same item.entry) later ≡ out =
            cc (result, h) in
          subst (λ o. IsAscending o × ((b : Bytes) → All (Beyond b) (item ∷ heap) → Above b o))
            same_out (all, λ b beyond. from b (top_key-Beyond b item heap beyond))
    ]

pub push_all-Ascends :
    (tables : List (Map InternalEntry)) (heap : List HeapItem)
    → All IsAscending tables
    → All Ascends heap
    → All Ascends (push_all tables heap)
unfolding push_all
push_all-Ascends [] heap t a = a
push_all-Ascends (table ∷ tables) heap t a =
    push_all-Ascends tables (push table heap) t.1 (push-Ascends table heap t.0 a)

-- The merge ends for any tables. Where each table has ascending keys, so has the output: the
-- builder's condition on the order of its keys holds for every record that the merge adds.
pub merge-IsAscending :
    (can_drop : Bool) (tables : List (Map InternalEntry))
    → (out : Map InternalEntry) × (merge can_drop tables ≡ some out)
      × (All IsAscending tables → IsAscending out)
unfolding merge
merge-IsAscending can_drop tables =
    let (out, e) =
      merge_loop-some (count_entries tables) can_drop (push_all tables [])
        (omega (arith, entries-push_all tables [])) in
    (
      out,
      e,
      λ t.
          (merge_loop-IsAscending (count_entries tables) can_drop (push_all tables []) out e
            (push_all-Ascends tables [] t tt)).0,
    )
