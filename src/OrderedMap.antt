-- ===== src/OrderedMap.antt =====
-- `std::map<std::string, V>` as the sources use it: an association list in the order of its keys.
pub mod Laws
use kronos_engine.Prelude.{
  Option, none, some, List, [], ◌∷◌, Bytes, compare_bytes, ◌≺◌, str_eq, if◌then◌else◌, lt, eq, gt,
  All,
}

abbrev pub Map {ℓ} : Type ℓ → Type ℓ
Map V = List (Bytes × V)

module _ {ℓ} {V : Type ℓ} where
  -- `find(key)`
  unfoldable pub find : Bytes → Map V → Option V
  find k [] = none
  find k ((j, v) ∷ m) = if str_eq j k then some v else find k m

  -- `map[key] = v`
  unfoldable pub insert_or_assign : Bytes → V → Map V → Map V
  insert_or_assign k v [] = (k, v) ∷ []
  insert_or_assign k v ((j, w) ∷ m) = elim (compare_bytes k j) [
    | lt ↦ (k, v) ∷ (j, w) ∷ m
    | eq ↦ (k, v) ∷ m
    | gt ↦ (j, w) ∷ insert_or_assign k v m
  ]

  -- Every key of the map is after `k`.
  abbrev pub Above : Bytes → Map V → Type 0
  Above k m = All (λ e. k ≺ e.0) m

  -- The keys are distinct and ascend.
  abbrev pub IsAscending : Map V → Type 0
  IsAscending [] = Unit {0}
  IsAscending ((k, v) ∷ m) = Above k m × IsAscending m
