-- ===== src/Memtable/Accounting.antt =====
-- The memory that a memtable believes it uses, and the order of its keys.
use kronos_engine.Prelude.{
  ℕ, ◌+◌, ◌-◌, ◌%◌, ◌^◌, ◌<◌, ◌≡◌, Option, none, some, [], ◌∷◌, Bytes, arith, ltb, eq_of_compare,
  compare_refl, lt_of_gt, gt_of_lt,
}
use kronos_engine.Types.{InternalEntry, put}
use kronos_engine.OrderedMap.{Map, find, insert_or_assign, IsAscending}
use kronos_engine.OrderedMap.Laws.{insert_or_assign-IsAscending, find-Above, Above-trans}
use kronos_engine.Memtable.{
  Memtable, MemTableState, immutable, mutable, success, init, estimate_entry_size, write_mutable,
  write, put_entry, remove_entry, freeze, would_exceed_target,
}

-- The cost of the entries, added up.
abbrev pub total_cost : Map InternalEntry → ℕ
total_cost [] = 0
total_cost ((k, e) ∷ m) = estimate_entry_size k e + total_cost m

abbrev cost_at : Bytes → Option InternalEntry → ℕ
cost_at k none = 0
cost_at k (some e) = estimate_entry_size k e

-- The keys ascend, and `memory_usage_` is the cost of the entries, modulo 2^64.
pub record IsValid (t : Memtable) : Type 0 where
  pub ascending : IsAscending t.mtable
  pub accounted : t.memory_usage ≡ total_cost t.mtable % 2 ^ 64

estimate-lt : (k : Bytes) (e : InternalEntry) → estimate_entry_size k e < 2 ^ 64
unfolding estimate_entry_size
estimate-lt k e = omega arith

cost_at-lt : (k : Bytes) (o : Option InternalEntry) → cost_at k o < 2 ^ 64
cost_at-lt k none = omega arith
cost_at-lt k (some e) = estimate-lt k e

total_cost-insert_or_assign :
    (k : Bytes) (e : InternalEntry) (m : Map InternalEntry)
    → IsAscending m
    → total_cost (insert_or_assign k e m) + cost_at k (find k m)
      ≡ total_cost m + estimate_entry_size k e
unfolding insert_or_assign find
total_cost-insert_or_assign k e [] s = omega arith
total_cost-insert_or_assign k e ((j, w) ∷ m) s = ground (
  arith,
  total_cost-insert_or_assign k e m s.1,
  Above-trans k j m,
  find-Above k m,
  lt_of_gt k j,
  gt_of_lt k j,
  gt_of_lt j k,
  eq_of_compare k j,
  eq_of_compare j k,
  compare_refl k,
)

module _ (t : Memtable) (key : Bytes) (e : InternalEntry) (v : IsValid t) where
  write_mutable-IsValid : IsValid (write_mutable t key e).0
  unfolding write_mutable
  write_mutable-IsValid = ground (
    arith,
    insert_or_assign-IsAscending key e t.mtable v.ascending,
    total_cost-insert_or_assign key e t.mtable v.ascending,
    estimate-lt key e,
    cost_at-lt key (find key t.mtable),
  )

  write-IsValid : (s : MemTableState) → IsValid (write s t key e).0
  unfolding write
  write-IsValid immutable = v
  write-IsValid mutable = write_mutable-IsValid

-- Each operation keeps the order of the keys and the count of the memory.
pub operations-IsValid :
    (t : Memtable) (key value : Bytes) (sequence : ℕ)
    → IsValid t
    → IsValid (put_entry t key value sequence).0
      × IsValid (remove_entry t key sequence).0
      × IsValid (freeze t).0
unfolding put_entry remove_entry freeze
operations-IsValid t key value sequence v =
    (write-IsValid t key _ v t.state, write-IsValid t key _ v t.state, ground arith)

-- A new memtable is in order.
pub init-IsValid : (target : ℕ) → IsValid (init target)
unfolding init
init-IsValid target = record { ascending = tt; accounted = omega arith }

-- `would_exceed_target` foresees the memory that an accepted PUT leaves: the engine asks it with
-- the largest sequence number in place of the one that the log will give.
pub would_exceed_target-put_entry :
    (t : Memtable) (key value : Bytes) (sequence : ℕ)
    → sequence < 2 ^ 64
    → (put_entry t key value sequence).1 ≡ success
    → would_exceed_target t key (record { value = value; sequence = 2 ^ 64 - 1; operation = put })
      ≡ ltb t.target_bytes (put_entry t key value sequence).0.memory_usage
unfolding put_entry would_exceed_target estimate_entry_size
would_exceed_target-put_entry t key value sequence fits accepted = ground arith
