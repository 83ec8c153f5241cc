-- ===== src/OrderedMap/Laws.antt =====
-- What `find` reads after `map[key] = v`, and that the order of the keys is kept.
use kronos_engine.Prelude.{
  ◌≡◌, refl, none, some, [], ◌∷◌, Bytes, compare_refl, eq_of_compare, lt_of_gt, gt_of_lt, lt_trans,
  ◌≺◌, str_eq, if◌then◌else◌, arith, All-imp,
}
use kronos_engine.OrderedMap.{Map, find, insert_or_assign, Above, IsAscending}

module _ {ℓ} {V : Type ℓ} where
  -- The key that was assigned reads its value, and every other key reads what it read before.
  pub find-insert_or_assign :
      (k j : Bytes) (v : V) (m : Map V)
      → find j (insert_or_assign k v m) ≡ (if str_eq k j then some v else find j m)
  unfolding find insert_or_assign
  find-insert_or_assign k j v [] = refl
  find-insert_or_assign k j v ((i, w) ∷ m) = ground (
    arith,
    find-insert_or_assign k j v m,
    eq_of_compare k i,
    eq_of_compare k j,
    eq_of_compare i j,
    compare_refl k,
  )

  pub find-insert_or_assign_self :
      (k : Bytes) (v : V) (m : Map V) → find k (insert_or_assign k v m) ≡ some v
  find-insert_or_assign_self k v m = ground (arith, find-insert_or_assign k k v m, compare_refl k)

  pub Above-insert_or_assign :
      (b k : Bytes) (v : V) (m : Map V) → b ≺ k → Above b m → Above b (insert_or_assign k v m)
  unfolding insert_or_assign
  Above-insert_or_assign b k v [] h a = (h, tt)
  Above-insert_or_assign b k v ((i, w) ∷ m) h a =
      ground (arith, Above-insert_or_assign b k v m h a.1)

  pub Above-trans : (a b : Bytes) (m : Map V) → a ≺ b → Above b m → Above a m
  Above-trans a b m h = All-imp (λ e. lt_trans a b e.0 h) m

  pub insert_or_assign-IsAscending :
      (k : Bytes) (v : V) (m : Map V) → IsAscending m → IsAscending (insert_or_assign k v m)
  unfolding insert_or_assign
  insert_or_assign-IsAscending k v [] s = (tt, tt)
  insert_or_assign-IsAscending k v ((i, w) ∷ m) s = ground (
    arith,
    insert_or_assign-IsAscending k v m s.1,
    Above-trans k i m,
    lt_of_gt k i,
    eq_of_compare k i,
    Above-insert_or_assign i k v m,
  )

  -- A key below the first one is not in the map.
  pub find-Above : (k : Bytes) (m : Map V) → Above k m → find k m ≡ none
  unfolding find
  find-Above k [] a = refl
  find-Above k ((j, v) ∷ m) a = ground (arith, find-Above k m a.1, gt_of_lt k j)
