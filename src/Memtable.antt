-- ===== src/Memtable.antt =====
-- include/kronos/memtable.hpp and src/memtable.cpp. The iterator is the list of the entries that
-- it has not passed. The sizes of the C++ types are those of a 64-bit libstdc++, and no proof
-- computes with them; `size_t` arithmetic is modulo 2^64.
pub mod Accounting
pub mod Versions
mod Examples
use kronos_engine.Prelude.{
  ℕ, ◌+◌, ◌-◌, ◌*◌, ◌%◌, ◌^◌, Bool, true, false, Option, none, some, List, [], ◌∷◌, Bytes, length,
  leb, ltb, if◌then◌else◌,
}
use kronos_engine.Types.{
  OperationType, InternalEntry, GetStatus, GetResult, delete, put, found, deleted, not_found,
}
use kronos_engine.OrderedMap.{Map, find, insert_or_assign}

pub data MemTableState : Type 0 where
  immutable mutable : MemTableState

pub data WriteResult : Type 0 where
  success frozen older_sequence : WriteResult

pub record Memtable : Type 0 where
  pub mtable : Map InternalEntry
  pub memory_usage : ℕ
  pub target_bytes : ℕ
  pub state : MemTableState

-- `Memtable(target_bytes)`
unfoldable pub init : ℕ → Memtable
init target = record { mtable = []; memory_usage = 0; target_bytes = target; state = mutable }

sizeof_string : ℕ
sizeof_string = 32

sizeof_entry : ℕ
sizeof_entry = 48

sizeof_pointer : ℕ
sizeof_pointer = 8

pub estimate_entry_size : Bytes → InternalEntry → ℕ
estimate_entry_size key entry =
    (sizeof_string + sizeof_entry + length key + length entry.value + 4 * sizeof_pointer) % 2 ^ 64

-- `usage - old + new` on `size_t`.
abbrev pub exchange : ℕ → ℕ → ℕ → ℕ
exchange usage old new = ((usage + 2 ^ 64 - old) % 2 ^ 64 + new) % 2 ^ 64

pub would_exceed_target : Memtable → Bytes → InternalEntry → Bool
would_exceed_target t key new_entry = elim (find key t.mtable) [
  | some old ↦
      if leb new_entry.sequence old.sequence
      then false
      else ltb t.target_bytes (
          exchange t.memory_usage (estimate_entry_size key old) (estimate_entry_size key new_entry))
  | none ↦ ltb t.target_bytes ((t.memory_usage + estimate_entry_size key new_entry) % 2 ^ 64)
]

-- The part that `put` and `remove` share from the assignment of `memory_usage_` on.
unfoldable pub store : Memtable → Bytes → InternalEntry → ℕ → Memtable
store t key new_entry old_size = record t {
  mtable = insert_or_assign key new_entry t.mtable;
  memory_usage = exchange t.memory_usage old_size (estimate_entry_size key new_entry);
}

-- The part of `put` and `remove` from the search for the key on, for an entry to be stored.
unfoldable pub write_mutable : Memtable → Bytes → InternalEntry → Memtable × WriteResult
unfolding store
write_mutable t key new_entry = elim (find key t.mtable) [
  | some old ↦
      if leb new_entry.sequence old.sequence
      then (t, older_sequence)
      else (store t key new_entry (estimate_entry_size key old), success)
  | none ↦ (store t key new_entry 0, success)
]

unfoldable pub write : MemTableState → Memtable → Bytes → InternalEntry → Memtable × WriteResult
unfolding write_mutable
write immutable t key new_entry = (t, frozen)
write mutable t key new_entry = write_mutable t key new_entry

unfoldable pub put_entry : Memtable → Bytes → Bytes → ℕ → Memtable × WriteResult
unfolding write
put_entry t key value sequence =
    write t.state t key (record { value = value; sequence = sequence; operation = put })

unfoldable pub remove_entry : Memtable → Bytes → ℕ → Memtable × WriteResult
unfolding write
remove_entry t key sequence =
    write t.state t key (record { value = []; sequence = sequence; operation = delete })

unfoldable pub lookup_entry : Memtable → Bytes → Option InternalEntry
lookup_entry t key = find key t.mtable

-- The answer for an entry that was found: shared by every `get` of the sources.
abbrev pub answer : Option InternalEntry → GetResult
answer none = record { value = []; status = not_found }
answer (some e) = elim e.operation [
  | delete ↦ record { value = []; status = deleted }
  | put ↦ record { value = e.value; status = found }
]

pub get : Memtable → Bytes → GetResult
unfolding lookup_entry
get t key = answer (lookup_entry t key)

unfoldable pub entry_count : Memtable → ℕ
entry_count t = length t.mtable

unfoldable pub freeze_state : MemTableState → Memtable → Memtable × Bool
freeze_state mutable t = (record t { state = immutable }, true)
freeze_state immutable t = (t, false)

unfoldable pub freeze : Memtable → Memtable × Bool
unfolding freeze_state
freeze t = freeze_state t.state t

-- `getIterator()`: the entries from the first key on.
pub Iterator : Type 0
Iterator = Map InternalEntry

pub get_iterator : Memtable → Iterator
unfolding Iterator
get_iterator t = t.mtable

pub valid : Iterator → Bool
unfolding Iterator
valid [] = false
valid (e ∷ rest) = true

pub next : Iterator → Iterator
unfolding Iterator
next [] = []
next (e ∷ rest) = rest
