-- ===== src/Queue/Waking.antt =====
-- include/kronos/thread_safe_queue.hpp: the condition variable. `wait_and_pop` looks at the queue
-- under the mutex, and sleeps in `cv_.wait` where its predicate does not hold; `push` and
-- `shutdown` notify only after they have released the mutex, so that other threads may run between
-- the change of the queue and the notification.
use kronos_engine.Prelude.{
  ℕ, zero, suc, ◌+◌, ◌-◌, ◌<◌, Bool, true, false, Option, none, some, if◌then◌else◌,
}
use kronos_engine.Queue.{ThreadSafeQueue, init, push, wait_and_pop, shutdown}

-- The queue, and how many threads are where.
pub record Threads {ℓ} (T : Type ℓ) : Type ℓ where
  pub tasks : ThreadSafeQueue T
  -- calls of `wait_and_pop` that are about to take the mutex: new ones, and those that woke up
  pub ready : ℕ
  -- calls of `wait_and_pop` that sleep in `cv_.wait`
  pub sleeping : ℕ
  -- calls of `push` before their `notify_one`, and of `shutdown` before their `notify_all`
  pub before_one : ℕ
  pub before_all : ℕ

module _ {ℓ} {T : Type ℓ} where
  unfoldable pub idle : Threads T
  idle = record { tasks = init; ready = 0; sleeping = 0; before_one = 0; before_all = 0 }

  -- A consumer calls `wait_and_pop`.
  unfoldable pub enter : Threads T → Threads T
  enter w = record w { ready = w.ready + 1 }

  abbrev after_push : Threads T → ThreadSafeQueue T × Bool → Threads T
  after_push w (tasks, true) = record w { tasks = tasks; before_one = w.before_one + 1 }
  after_push w (tasks, false) = w

  -- `push` up to its `notify_one`, which a refused call does not reach.
  unfoldable pub push_locked : T → Threads T → Threads T
  push_locked task w = after_push w (push task w.tasks)

  -- `shutdown` up to its `notify_all`, which only the first call reaches.
  unfoldable pub shutdown_locked : Threads T → Threads T
  shutdown_locked w =
      if w.tasks.shutting_down
      then w
      else record w { tasks = shutdown w.tasks; before_all = w.before_all + 1 }

  abbrev after_check : Threads T → Option (ThreadSafeQueue T × Option T) → Threads T
  after_check w none = record w { sleeping = w.sleeping + 1 }
  after_check w (some (tasks, answer)) = record w { tasks = tasks }

  -- A ready consumer takes the mutex: it returns, or it falls asleep and releases the mutex, both
  -- in the one step in which it checked the predicate.
  unfoldable pub consumer_turn : Threads T → Threads T
  consumer_turn w = after_check (record w { ready = w.ready - 1 }) (wait_and_pop w.tasks)

  -- A sleeping consumer wakes up, and checks the predicate again when it has the mutex.
  unfoldable pub wake_one : Threads T → Threads T
  wake_one w = elim w.sleeping [ zero ↦ w | suc n ↦ record w { sleeping = n; ready = w.ready + 1 } ]

  unfoldable pub notify_one : Threads T → Threads T
  notify_one w = wake_one (record w { before_one = w.before_one - 1 })

  unfoldable pub notify_all : Threads T → Threads T
  notify_all w = record w {
    before_all = w.before_all - 1;
    ready = w.ready + w.sleeping;
    sleeping = 0;
  }

-- A thread that is inside one of the operations goes on. A wake-up may be spurious.
pub data Move {ℓ} {T : Type ℓ} : Threads T → Threads T → Type ℓ where
  take_mutex : {w : Threads T} → 0 < w.ready → Move w (consumer_turn w)
  spurious : {w : Threads T} → 0 < w.sleeping → Move w (wake_one w)
  notified_one : {w : Threads T} → 0 < w.before_one → Move w (notify_one w)
  notified_all : {w : Threads T} → 0 < w.before_all → Move w (notify_all w)

-- The states that threads reach which call the operations in any number and interleaving.
pub data Reach {ℓ} {T : Type ℓ} : Threads T → Type ℓ where
  start : Reach idle
  calls_wait : {w : Threads T} → Reach w → Reach (enter w)
  calls_push : {w : Threads T} (task : T) → Reach w → Reach (push_locked task w)
  calls_shutdown : {w : Threads T} → Reach w → Reach (shutdown_locked w)
  goes_on : {w w' : Threads T} → Reach w → Move w w' → Reach w'

-- So many moves of threads, in any order, with no new call.
pub data Moves {ℓ} {T : Type ℓ} : ℕ → Threads T → Threads T → Type ℓ where
  stay : {w : Threads T} → Moves 0 w w
  move : {n : ℕ} {w₁ w₂ w₃ : Threads T} → Move w₁ w₂ → Moves n w₂ w₃ → Moves (suc n) w₁ w₃
