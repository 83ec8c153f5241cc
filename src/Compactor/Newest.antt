-- ===== src/Compactor/Newest.antt =====
-- The output of the merge holds the newest version of each of its keys.
use kronos_engine.Prelude.{
  ℕ, zero, suc, ◌≤◌, ◌≡◌, ◌≢◌, ◌⊎◌, inl, inr, refl, ap, sym, subst, Bool, false, none, some, List,
  [], ◌∷◌, Bytes, length, str_eq, str_lt, str_eq_iff, ◌≺◌, ≺-irrefl, if◌then◌else◌, ltb, All,
  Bool-cases, Option-cases, arith,
}
use kronos_engine.Types.{InternalEntry}
use kronos_engine.OrderedMap.{Map, Above, IsAscending}
use kronos_engine.Compactor.{
  HeapItem, push, push_all, top_key, same_key, other_keys, pick_winner, advance_all, winner_of,
  emit, merge_loop, merge, count_entries,
}
use kronos_engine.Compactor.Heap.{
  Ascends, NotBelow, top_key-NotBelow, advance_all-Ascends, advance_all-Beyond, same_key-All,
  other_keys-All, same_key-Above, other_keys-Beyond,
}
use kronos_engine.Compactor.Held.{
  InTable, Held, Held-advance_all, advance_all-Held, split-Held, Held-split, push-Held, Held-push,
}
use kronos_engine.Compactor.Ends.{same_key-top}
use kronos_engine.Compactor.Order.{merge_loop-IsAscending, push_all-Ascends}

InTable-Above :
    (b k : Bytes) (e : InternalEntry) (m : Map InternalEntry) → Above b m → InTable k e m → b ≺ k
InTable-Above b k e [] a h = absurd h
InTable-Above b k e ((j, v) ∷ m) a (inl (same, _)) = subst (λ x. b ≺ x) same a.0
InTable-Above b k e ((j, v) ∷ m) a (inr h) = InTable-Above b k e m a.1 h

-- The entry is the current one of some item.
abbrev Heads : InternalEntry → List HeapItem → Type 0
Heads e [] = ⊥
Heads e (item ∷ items) = (item.entry ≡ e) ⊎ Heads e items

Held-Heads :
    (key : Bytes) (e : InternalEntry) (heap : List HeapItem)
    → All Ascends heap
    → All (NotBelow key) heap
    → Held key e heap
    → Heads e (same_key key heap)
unfolding same_key
Held-Heads key e [] a b h = absurd h
Held-Heads key e (item ∷ heap) a b (inl (inl (same, entry))) =
    rw ((str_eq_iff item.key key).1 same) (inl entry)
Held-Heads key e (item ∷ heap) a b (inl (inr h)) =
    let below = InTable-Above item.key key e item.rest a.0.0 h in
    absurd (not_below item.key key below b.0)
  where
    not_below : (x y : Bytes) → x ≺ y → str_lt x y ≡ false → ⊥
    not_below x y h k = ground arith
Held-Heads key e (item ∷ heap) a b (inr h) = elim (Bool-cases (str_eq item.key key)) [
  | inl same ↦ rw same (inr (Held-Heads key e heap a.1 b.1 h))
  | inr other ↦ rw other (Held-Heads key e heap a.1 b.1 h)
]

Heads-Held :
    (key : Bytes) (e : InternalEntry) (heap : List HeapItem)
    → Heads e (same_key key heap)
    → Held key e heap
unfolding same_key
Heads-Held key e [] h = absurd h
Heads-Held key e (item ∷ heap) h = ground (arith, Heads-Held key e heap, str_eq_iff item.key key)

-- What the loop over the popped items ends with.
abbrev Winner : InternalEntry → List HeapItem → InternalEntry → Type 0
Winner w items r =
    (w.sequence ≤ r.sequence)
    × ((e : InternalEntry) → Heads e items → e.sequence ≤ r.sequence)
    × ((r ≡ w) ⊎ Heads r items)

pick_winner-Winner :
    (w : InternalEntry) (items : List HeapItem) → Winner w items (pick_winner w items)
unfolding pick_winner
pick_winner-Winner w [] = (omega arith, λ e h. absurd h, inl refl)
pick_winner-Winner w (item ∷ items) = elim (Bool-cases (ltb w.sequence item.entry.sequence)) [
  | inl newer ↦
      let (low, all, from) = pick_winner-Winner item.entry items in
      let chosen : (if ltb w.sequence item.entry.sequence then item.entry else w) ≡ item.entry =
        rw newer refl in
      subst (Winner w (item ∷ items)) (ap (λ x. pick_winner x items) (sym chosen)) (
        ground arith,
        λ e h. elim h [
          | inl same ↦ subst (λ x. x.sequence ≤ (pick_winner item.entry items).sequence) same low
          | inr k ↦ all e k
        ],
        elim from [ inl same ↦ inr (inl (sym same)) | inr k ↦ inr (inr k) ],
      )
  | inr older ↦
      let (low, all, from) = pick_winner-Winner w items in
      let below : item.entry.sequence ≤ (pick_winner w items).sequence = ground arith in
      let chosen : (if ltb w.sequence item.entry.sequence then item.entry else w) ≡ w =
        rw older refl in
      subst (Winner w (item ∷ items)) (ap (λ x. pick_winner x items) (sym chosen)) (
        low,
        λ e h. elim h [
          | inl same ↦ subst (λ x. x.sequence ≤ (pick_winner w items).sequence) same below
          | inr k ↦ all e k
        ],
        elim from [ inl same ↦ inl same | inr k ↦ inr (inr k) ],
      )
]

-- The version is the newest that the iterators have of its key.
abbrev pub Best : Bytes → InternalEntry → List HeapItem → Type 0
Best k w heap = Held k w heap × ((e : InternalEntry) → Held k e heap → e.sequence ≤ w.sequence)

pub winner-Best :
    (item : HeapItem) (heap : List HeapItem)
    → All Ascends (item ∷ heap)
    → let key = top_key item heap in
      Best key (winner_of (same_key key (item ∷ heap)) item.entry) (item ∷ heap)
winner-Best item heap a = go (same_key key (item ∷ heap)) refl
  where
    key : Bytes
    key = top_key item heap

    go :
        (items : List HeapItem)
        → same_key key (item ∷ heap) ≡ items
        → Best key (winner_of (same_key key (item ∷ heap)) item.entry) (item ∷ heap)
    go [] e = absurd (omega (arith, same_key-top item heap, ap length e))
    go (first ∷ others) e =
        let (low, all, from) = pick_winner-Winner first.entry (first ∷ others) in
        let w = pick_winner first.entry (first ∷ others) in
        let mine : Heads w (first ∷ others) = elim from [ inl same ↦ inl (sym same) | inr h ↦ h ] in
        subst (λ v. Best key v (item ∷ heap)) (ap (λ is. winner_of is item.entry) (sym e))
          (
            Heads-Held key w (item ∷ heap) (subst (Heads w) (sym e) mine),
            λ x h. all x (
                subst (Heads x) e
                  (Held-Heads key x (item ∷ heap) a (top_key-NotBelow item heap) h)),
          )

-- A round for one key leaves the newest versions of the others.
pub advance_all-Best :
    (key k : Bytes) (w : InternalEntry) (heap : List HeapItem)
    → k ≢ key
    → Best k w (advance_all (same_key key heap) (other_keys key heap))
    → Best k w heap
advance_all-Best key k w heap ne (held, newest) =
    let same = same_key key heap in
    let others = other_keys key heap in
    (
      split-Held key k w heap (advance_all-Held k w same others held),
      λ x x_held. newest x (Held-advance_all k x same others (Held-split key k x heap ne x_held)),
    )

merge_loop-Best :
    (fuel : ℕ) (can_drop : Bool) (heap : List HeapItem) (out : Map InternalEntry)
    → merge_loop fuel can_drop heap ≡ some out
    → All Ascends heap
    → (k : Bytes) (w : InternalEntry) → InTable k w out
    → Best k w heap
unfolding merge_loop
merge_loop-Best fuel can_drop [] out h a k w m =
    let nothing : out ≡ [] = ground arith in absurd (subst (InTable k w) nothing m)
merge_loop-Best zero can_drop (item ∷ heap) out h a k w m = absurd (cc h)
merge_loop-Best (suc fuel) can_drop (item ∷ heap) out h a k w m =
    let key = top_key item heap in
    let same = same_key key (item ∷ heap) in
    let others = other_keys key (item ∷ heap) in
    let winner = winner_of same item.entry in
    let rest_a =
      advance_all-Ascends same others (same_key-All Ascends key (item ∷ heap) a)
        (other_keys-All Ascends key (item ∷ heap) a) in
    elim (Option-cases (merge_loop fuel can_drop (advance_all same others))) [
      | inl e ↦
          let stops : merge_loop (suc fuel) can_drop (item ∷ heap) ≡ none =
            rw (e, merge_loop) refl in
          absurd (cc (stops, h))
      | inr (later, e) ↦
          let result : merge_loop (suc fuel) can_drop (item ∷ heap)
              ≡ some (emit can_drop key winner later) =
            rw (e, merge_loop) refl in
          let same_out : out ≡ emit can_drop key winner later = cc (result, h) in
          let after : Above key later =
            (merge_loop-IsAscending fuel can_drop (advance_all same others) later e rest_a).1 key (
              advance_all-Beyond key same others (same_key-Above key (item ∷ heap) a)
                (other_keys-Beyond key (item ∷ heap) (top_key-NotBelow item heap))) in
          elim (emit-cases can_drop key winner later k w (subst (InTable k w) same_out m)) [
            | inl (key_same, winner_same) ↦
                subst (λ x. Best x w (item ∷ heap)) key_same
                  (subst (λ x. Best key x (item ∷ heap)) winner_same (winner-Best item heap a))
            | inr in_later ↦
                let best =
                  merge_loop-Best fuel can_drop (advance_all same others) later e rest_a k w
                    in_later in
                let ne : k ≢ key = λ same_key'.
                  ≺-irrefl key
                    (subst (λ x. key ≺ x) same_key' (InTable-Above key k w later after in_later)) in
                advance_all-Best key k w (item ∷ heap) ne best
          ]
    ]
  where
    emit-cases :
        (can_drop : Bool) (key : Bytes) (winner : InternalEntry) (later : Map InternalEntry)
        (k : Bytes) (w : InternalEntry)
        → InTable k w (emit can_drop key winner later)
        → ((key ≡ k) × (winner ≡ w)) ⊎ InTable k w later
    emit-cases can_drop key winner later k w m = ground arith

-- Some table has this version of the key.
abbrev pub InTables : Bytes → InternalEntry → List (Map InternalEntry) → Type 0
InTables k e [] = ⊥
InTables k e (table ∷ tables) = InTable k e table ⊎ InTables k e tables

pub push_all-Held :
    (k : Bytes) (e : InternalEntry) (tables : List (Map InternalEntry)) (heap : List HeapItem)
    → Held k e (push_all tables heap)
    → InTables k e tables ⊎ Held k e heap
unfolding push_all
push_all-Held k e [] heap h = inr h
push_all-Held k e (t ∷ tables) heap h =
    ground (arith, push_all-Held k e tables (push t heap), push-Held k e t heap)

pub Held-push_all :
    (k : Bytes) (e : InternalEntry) (tables : List (Map InternalEntry)) (heap : List HeapItem)
    → InTables k e tables ⊎ Held k e heap
    → Held k e (push_all tables heap)
unfolding push_all
Held-push_all k e [] heap (inl h) = absurd h
Held-push_all k e [] heap (inr h) = h
Held-push_all k e (t ∷ tables) heap (inl (inl h)) =
    Held-push_all k e tables (push t heap) (inr (Held-push k e t heap (inl h)))
Held-push_all k e (t ∷ tables) heap (inl (inr h)) = Held-push_all k e tables (push t heap) (inl h)
Held-push_all k e (t ∷ tables) heap (inr h) =
    Held-push_all k e tables (push t heap) (inr (Held-push k e t heap (inr h)))

-- Where each table has ascending keys: every record of the output is a version that some table has
-- of its key, and no table has a version of that key with a larger sequence number.
pub merge-newest :
    (can_drop : Bool) (tables : List (Map InternalEntry)) (out : Map InternalEntry) (k : Bytes)
    (w : InternalEntry)
    → All IsAscending tables
    → merge can_drop tables ≡ some out
    → InTable k w out
    → InTables k w tables × ((e : InternalEntry) → InTables k e tables → e.sequence ≤ w.sequence)
unfolding merge
merge-newest can_drop tables out k w t h m =
    let (held, newest) =
      merge_loop-Best (count_entries tables) can_drop (push_all tables []) out h
        (push_all-Ascends tables [] t tt) k w m in
    (
      elim (push_all-Held k w tables [] held) [ inl x ↦ x | inr nothing ↦ absurd nothing ],
      λ e x. newest e (Held-push_all k e tables [] (inl x)),
    )
