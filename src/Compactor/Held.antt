-- ===== src/Compactor/Held.antt =====
-- Which versions of a key the iterators of the heap have still to come, through one round.
use kronos_engine.Prelude.{◌≡◌, ◌≢◌, ◌⊎◌, inl, inr, List, [], ◌∷◌, ◌++◌, Bytes, str_eq_iff, arith}
use kronos_engine.Types.{InternalEntry}
use kronos_engine.OrderedMap.{Map}
use kronos_engine.Compactor.{HeapItem, push, same_key, other_keys, advance_all}

-- The table has this version of the key.
abbrev pub InTable : Bytes → InternalEntry → Map InternalEntry → Type 0
InTable k e [] = ⊥
InTable k e ((j, v) ∷ m) = ((j ≡ k) × (v ≡ e)) ⊎ InTable k e m

abbrev pub At : Bytes → InternalEntry → HeapItem → Type 0
At k e item = (item.key ≡ k) × (item.entry ≡ e)

-- Some iterator of the heap has this version still to come.
abbrev pub Held : Bytes → InternalEntry → List HeapItem → Type 0
Held k e [] = ⊥
Held k e (item ∷ heap) = (At k e item ⊎ InTable k e item.rest) ⊎ Held k e heap

pub Held-append :
    (k : Bytes) (e : InternalEntry) (xs ys : List HeapItem)
    → Held k e xs ⊎ Held k e ys
    → Held k e (xs ++ ys)
Held-append k e [] ys (inl h) = absurd h
Held-append k e [] ys (inr h) = h
Held-append k e (x ∷ xs) ys h = ground (arith, Held-append k e xs ys)

pub append-Held :
    (k : Bytes) (e : InternalEntry) (xs ys : List HeapItem)
    → Held k e (xs ++ ys)
    → Held k e xs ⊎ Held k e ys
append-Held k e [] ys h = inr h
append-Held k e (x ∷ xs) ys h = ground (arith, append-Held k e xs ys)

pub Held-push :
    (k : Bytes) (e : InternalEntry) (t : Map InternalEntry) (heap : List HeapItem)
    → InTable k e t ⊎ Held k e heap
    → Held k e (push t heap)
unfolding push
Held-push k e [] heap (inl h) = absurd h
Held-push k e [] heap (inr h) = h
Held-push k e ((j, v) ∷ t) heap (inl h) = Held-append k e heap _ (inr (inl h))
Held-push k e ((j, v) ∷ t) heap (inr h) = Held-append k e heap _ (inl h)

pub push-Held :
    (k : Bytes) (e : InternalEntry) (t : Map InternalEntry) (heap : List HeapItem)
    → Held k e (push t heap)
    → InTable k e t ⊎ Held k e heap
unfolding push
push-Held k e [] heap h = inr h
push-Held k e ((j, v) ∷ t) heap h =
    elim (append-Held k e heap (record { key = j; entry = v; rest = t } ∷ []) h) [
      | inl m ↦ inr m
      | inr (inl m) ↦ inl m
      | inr (inr nothing) ↦ absurd nothing
    ]

-- Some popped iterator has the version behind its key.
abbrev pub Later : Bytes → InternalEntry → List HeapItem → Type 0
Later k e [] = ⊥
Later k e (item ∷ items) = InTable k e item.rest ⊎ Later k e items

pub Held-advance_all :
    (k : Bytes) (e : InternalEntry) (items heap : List HeapItem)
    → Later k e items ⊎ Held k e heap
    → Held k e (advance_all items heap)
unfolding advance_all
Held-advance_all k e [] heap (inl h) = absurd h
Held-advance_all k e [] heap (inr h) = h
Held-advance_all k e (item ∷ items) heap (inl (inl h)) =
    Held-advance_all k e items (push item.rest heap) (inr (Held-push k e item.rest heap (inl h)))
Held-advance_all k e (item ∷ items) heap (inl (inr h)) =
    Held-advance_all k e items (push item.rest heap) (inl h)
Held-advance_all k e (item ∷ items) heap (inr h) =
    Held-advance_all k e items (push item.rest heap) (inr (Held-push k e item.rest heap (inr h)))

pub advance_all-Held :
    (k : Bytes) (e : InternalEntry) (items heap : List HeapItem)
    → Held k e (advance_all items heap)
    → Later k e items ⊎ Held k e heap
unfolding advance_all
advance_all-Held k e [] heap h = inr h
advance_all-Held k e (item ∷ items) heap h =
    ground (arith, advance_all-Held k e items (push item.rest heap), push-Held k e item.rest heap)

-- Popping the top loses the versions at its key only.
pub split-Held :
    (key k : Bytes) (e : InternalEntry) (heap : List HeapItem)
    → Later k e (same_key key heap) ⊎ Held k e (other_keys key heap)
    → Held k e heap
unfolding same_key other_keys
split-Held key k e [] h = ground arith
split-Held key k e (item ∷ heap) h = ground (arith, split-Held key k e heap)

pub Held-split :
    (key k : Bytes) (e : InternalEntry) (heap : List HeapItem)
    → k ≢ key
    → Held k e heap
    → Later k e (same_key key heap) ⊎ Held k e (other_keys key heap)
unfolding same_key other_keys
Held-split key k e [] ne h = absurd h
Held-split key k e (item ∷ heap) ne h =
    ground (arith, Held-split key k e heap ne, str_eq_iff item.key key)
