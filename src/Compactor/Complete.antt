-- ===== src/Compactor/Complete.antt =====
-- The merge (src/compactor.cpp) leaves no key out but those whose newest version is a tombstone that
-- it may drop.
use kronos_engine.Prelude.{
  ℕ, zero, suc, ◌≤◌, ◌≡◌, ◌≢◌, ◌⊎◌, inl, inr, refl, sym, subst, Bool, true, false, none, some, List,
  [], ◌∷◌, Bytes, str_eq, str_eq_iff, All, Bool-cases, Option-cases, arith,
}
use kronos_engine.Types.{InternalEntry, delete}
use kronos_engine.OrderedMap.{Map, IsAscending}
use kronos_engine.Compactor.{
  HeapItem, push_all, top_key, same_key, other_keys, advance_all, winner_of, emit, should_write,
  merge_loop, merge, count_entries,
}
use kronos_engine.Compactor.Heap.{Ascends, advance_all-Ascends, same_key-All, other_keys-All}
use kronos_engine.Compactor.Held.{InTable, Held, Held-advance_all, Held-split}
use kronos_engine.Compactor.Order.{push_all-Ascends}
use kronos_engine.Compactor.Newest.{
  Best, winner-Best, advance_all-Best, InTables, push_all-Held, Held-push_all,
}

-- The key has a record in the output, or a newest version that is not written.
abbrev Covers : Bool → Bytes → List HeapItem → Map InternalEntry → Type 0
Covers can_drop k heap out =
    ((w : InternalEntry) × InTable k w out)
    ⊎ ((w : InternalEntry) × Best k w heap × (should_write can_drop w ≡ false))

InTable-emit :
    (can_drop : Bool) (key : Bytes) (winner : InternalEntry) (later : Map InternalEntry) (k : Bytes)
    (w : InternalEntry)
    → InTable k w later
    → InTable k w (emit can_drop key winner later)
InTable-emit can_drop key winner later k w m = ground arith

-- The round for the key itself.
winner-Covers :
    (can_drop : Bool) (item : HeapItem) (heap : List HeapItem) (later : Map InternalEntry)
    → All Ascends (item ∷ heap)
    → let key = top_key item heap in
      Covers can_drop key
        (item ∷ heap)
        (emit can_drop key (winner_of (same_key key (item ∷ heap)) item.entry) later)
winner-Covers can_drop item heap later a =
    let key = top_key item heap in
    let winner = winner_of (same_key key (item ∷ heap)) item.entry in
    elim (Bool-cases (should_write can_drop winner)) [
      | inl write ↦ inl (winner, rw write (inl (refl, refl)))
      | inr drop ↦ inr (winner, winner-Best item heap a, drop)
    ]

merge_loop-Covers :
    (fuel : ℕ) (can_drop : Bool) (heap : List HeapItem) (out : Map InternalEntry)
    → merge_loop fuel can_drop heap ≡ some out
    → All Ascends heap
    → (k : Bytes) (e : InternalEntry) → Held k e heap
    → Covers can_drop k heap out
unfolding merge_loop
merge_loop-Covers fuel can_drop [] out h a k v m = absurd m
merge_loop-Covers zero can_drop (item ∷ heap) out h a k v m = absurd (cc h)
merge_loop-Covers (suc fuel) can_drop (item ∷ heap) out h a k v m =
    let key = top_key item heap in
    let same = same_key key (item ∷ heap) in
    let others = other_keys key (item ∷ heap) in
    let winner = winner_of same item.entry in
    elim (Option-cases (merge_loop fuel can_drop (advance_all same others))) [
      | inl e ↦
          let stops : merge_loop (suc fuel) can_drop (item ∷ heap) ≡ none =
            rw (e, merge_loop) refl in
          absurd (cc (stops, h))
      | inr (later, e) ↦
          let result : merge_loop (suc fuel) can_drop (item ∷ heap)
              ≡ some (emit can_drop key winner later) =
            rw (e, merge_loop) refl in
          let same_out : emit can_drop key winner later ≡ out = cc (result, h) in
          let rest_a =
            advance_all-Ascends same others (same_key-All Ascends key (item ∷ heap) a)
              (other_keys-All Ascends key (item ∷ heap) a) in
          subst (Covers can_drop k (item ∷ heap)) same_out (elim (Bool-cases (str_eq key k)) [
            | inl mine ↦
                subst (λ x. Covers can_drop x (item ∷ heap) (emit can_drop key winner later))
                  ((str_eq_iff key k).0 mine) (winner-Covers can_drop item heap later a)
            | inr other ↦
                let ne : k ≢ key = λ s. differs key k other s in
                elim (merge_loop-Covers fuel can_drop (advance_all same others) later e rest_a k v
                  (Held-advance_all k v same others (Held-split key k v (item ∷ heap) ne m))) [
                    | inl (w, i) ↦ inl (w, InTable-emit can_drop key winner later k w i)
                    | inr (w, best, drop) ↦
                        inr (w, advance_all-Best key k w (item ∷ heap) ne best, drop)
                  ]
          ])
    ]
  where
    differs : (x y : Bytes) → str_eq x y ≡ false → y ≢ x
    differs x y h s = let t = (str_eq_iff x y).1 (sym s) in cc (t, h)

should_write-drop :
    (can_drop : Bool) (w : InternalEntry)
    → should_write can_drop w ≡ false
    → (w.operation ≡ delete) × (can_drop ≡ true)
should_write-drop can_drop w h = ground arith

-- Where each table has ascending keys: every key of the tables has a record in the output, unless
-- tombstones may be dropped and a version of the key that is a tombstone has a sequence number
-- that no other version of it in the tables exceeds.
pub merge_complete :
    (can_drop : Bool) (tables : List (Map InternalEntry)) (out : Map InternalEntry) (k : Bytes)
    (e : InternalEntry)
    → All IsAscending tables
    → merge can_drop tables ≡ some out
    → InTables k e tables
    → ((w : InternalEntry) × InTable k w out)
      ⊎ ((w : InternalEntry) × InTables k w tables
          × ((v : InternalEntry) → InTables k v tables → v.sequence ≤ w.sequence)
          × (w.operation ≡ delete)
          × (can_drop ≡ true))
unfolding merge
merge_complete can_drop tables out k e t h m =
    elim (merge_loop-Covers (count_entries tables) can_drop (push_all tables []) out h
      (push_all-Ascends tables [] t tt) k e (Held-push_all k e tables [] (inl m))) [
        | inl written ↦ inl written
        | inr (w, (held, newest), drop) ↦
            let (tombstone, dropped) = should_write-drop can_drop w drop in
            inr (
              w,
              elim (push_all-Held k w tables [] held) [ inl x ↦ x | inr nothing ↦ absurd nothing ],
              λ v x. newest v (Held-push_all k v tables [] (inl x)),
              tombstone,
              dropped,
            )
      ]
