-- ===== src/Queue.antt =====
-- include/kronos/thread_safe_queue.hpp: the queue between the writers and the flush worker. Every
-- operation does its work on the queue under the mutex, so what it does there is a function of the
-- queue; the threads that sleep in `cv_.wait`, and the notifications, are in Queue/Waking.antt.
pub mod Order
pub mod Waking
pub mod Woken
mod Examples
use kronos_engine.Prelude.{
  Bool, true, false, not, ◌||◌, ◌&&◌, Option, none, some, List, [], ◌∷◌, ◌++◌, if◌then◌else◌,
}

pub record ThreadSafeQueue {ℓ} (T : Type ℓ) : Type ℓ where
  pub queue : List T
  pub shutting_down : Bool

module _ {ℓ} {T : Type ℓ} where
  unfoldable pub init : ThreadSafeQueue T
  init = record { queue = []; shutting_down = false }

  unfoldable pub push : T → ThreadSafeQueue T → ThreadSafeQueue T × Bool
  push task q =
      if q.shutting_down then (q, false) else (record q { queue = q.queue ++ task ∷ [] }, true)

  abbrev is_empty : List T → Bool
  is_empty [] = true
  is_empty (task ∷ tasks) = false

  -- The front, moved out; the predicate of `wait` excludes the empty queue here.
  abbrev pop_front : ThreadSafeQueue T → List T → ThreadSafeQueue T × Option T
  pop_front q [] = (q, none)
  pop_front q (task ∷ tasks) = (record q { queue = tasks }, some task)

  -- None where the caller sleeps; otherwise the queue and the task, or `nullopt`.
  unfoldable pub wait_and_pop : ThreadSafeQueue T → Option (ThreadSafeQueue T × Option T)
  wait_and_pop q =
      if not (not (is_empty q.queue) || q.shutting_down)
      then none
      else if q.shutting_down && is_empty q.queue
      then some (q, none)
      else some (pop_front q q.queue)

  unfoldable pub shutdown : ThreadSafeQueue T → ThreadSafeQueue T
  shutdown q = if q.shutting_down then q else record q { shutting_down = true }
