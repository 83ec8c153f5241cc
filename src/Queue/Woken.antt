-- ===== src/Queue/Woken.antt =====
-- The condition variable of the queue: no wake-up is lost, and after `shutdown` every consumer
-- returns.
use kronos_engine.Prelude.{
  ℕ, suc, ◌+◌, ◌*◌, ◌≤◌, ◌<◌, ◌≡◌, true, false, [], ◌∷◌, length, length-append, arith,
}
use kronos_engine.Queue.{init, push, wait_and_pop, shutdown}
use kronos_engine.Queue.Waking.{
  Threads, idle, enter, push_locked, shutdown_locked, consumer_turn, wake_one, notify_one,
  notify_all, Move, take_mutex, spurious, notified_one, notified_all, Reach, start, calls_wait,
  calls_push, calls_shutdown, goes_on, Moves, stay, move,
}

module _ {ℓ} {T : Type ℓ} where
  -- While a consumer sleeps, each task has a thread that will see to it; and after `shutdown` a
  -- `notify_all` is due.
  abbrev IsWatched : Threads T → Type 0
  IsWatched w =
      (0 < w.sleeping → length w.tasks.queue ≤ w.ready + w.before_one)
      × (w.tasks.shutting_down ≡ true → 0 < w.sleeping → 0 < w.before_all)

  push_locked-IsWatched : (task : T) (w : Threads T) → IsWatched w → IsWatched (push_locked task w)
  unfolding push_locked push
  push_locked-IsWatched task w h = ground (arith, length-append w.tasks.queue (task ∷ []))

  shutdown_locked-IsWatched : (w : Threads T) → IsWatched w → IsWatched (shutdown_locked w)
  unfolding shutdown_locked shutdown
  shutdown_locked-IsWatched w h = ground arith

  consumer_turn-IsWatched :
      (w : Threads T) → 0 < w.ready → IsWatched w → IsWatched (consumer_turn w)
  unfolding consumer_turn wait_and_pop
  consumer_turn-IsWatched w r h = ground arith

  wake_one-IsWatched : (w : Threads T) → IsWatched w → IsWatched (wake_one w)
  unfolding wake_one
  wake_one-IsWatched w h = ground arith

  notify_one-IsWatched : (w : Threads T) → IsWatched w → IsWatched (notify_one w)
  unfolding notify_one wake_one
  notify_one-IsWatched w h = ground arith

  notify_all-IsWatched : (w : Threads T) → IsWatched w → IsWatched (notify_all w)
  unfolding notify_all
  notify_all-IsWatched w h = ground arith

  Move-IsWatched : {w w' : Threads T} → Move w w' → IsWatched w → IsWatched w'
  Move-IsWatched (take_mutex {w = w} r) h = consumer_turn-IsWatched w r h
  Move-IsWatched (spurious {w = w} s) h = wake_one-IsWatched w h
  Move-IsWatched (notified_one {w = w} b) h = notify_one-IsWatched w h
  Move-IsWatched (notified_all {w = w} b) h = notify_all-IsWatched w h

  Reach-IsWatched : {w : Threads T} → Reach w → IsWatched w
  unfolding idle enter init
  Reach-IsWatched start = (λ s. omega (arith, s), λ c s. omega (arith, s))
  Reach-IsWatched (calls_wait {w = w} r) = (let h = Reach-IsWatched r in ground arith)
  Reach-IsWatched (calls_push {w = w} task r) = push_locked-IsWatched task w (Reach-IsWatched r)
  Reach-IsWatched (calls_shutdown {w = w} r) = shutdown_locked-IsWatched w (Reach-IsWatched r)
  Reach-IsWatched (goes_on r m) = Move-IsWatched m (Reach-IsWatched r)

  -- No consumer is ready and no notification is due: nothing happens without a new call, but for a
  -- spurious wake-up.
  abbrev pub IsQuiet : Threads T → Type 0
  IsQuiet w = (w.ready ≡ 0) × (w.before_one ≡ 0) × (w.before_all ≡ 0)

  -- No wake-up is lost: in every state that threads reach by calling the operations in any
  -- interleaving, once no consumer is ready and every notification that is due was made, a
  -- consumer sleeps only where the queue is empty and is not shut down.
  pub Reach-woken :
      (w : Threads T)
      → Reach w
      → IsQuiet w
      → 0 < w.sleeping
      → (w.tasks.queue ≡ []) × (w.tasks.shutting_down ≡ false)
  Reach-woken w r quiet s = let h = Reach-IsWatched r in ground arith

  -- Each sleeping consumer may wake up and take its turn; each ready one takes its turn.
  abbrev pub work : Threads T → ℕ
  work w = 2 * w.sleeping + w.ready + w.before_one + w.before_all

  Move-work :
      {w w' : Threads T}
      → Move w w'
      → w.tasks.shutting_down ≡ true
      → (w'.tasks.shutting_down ≡ true) × (work w' < work w)
  unfolding consumer_turn wait_and_pop wake_one notify_one notify_all
  Move-work (take_mutex {w = w} r) c = ground arith
  Move-work (spurious {w = w} s) c = ground arith
  Move-work (notified_one {w = w} b) c = ground arith
  Move-work (notified_all {w = w} b) c = ground arith

  -- After `shutdown` every consumer returns: from any reached state in which the queue is shut
  -- down, the threads inside the operations make, in any order and without new calls, no more moves
  -- than `work` counts, and once no consumer is ready and no notification is due, none sleeps.
  pub Moves-return :
      (n : ℕ) (w w' : Threads T)
      → Reach w
      → w.tasks.shutting_down ≡ true
      → Moves n w w'
      → (n ≤ work w) × (IsQuiet w' → w'.sleeping ≡ 0)
  Moves-return n w w' r c stay = (omega arith, λ quiet. (let h = Reach-IsWatched r in ground arith))
  Moves-return (suc n) w w' r c (move {w₂ = w₂} m ms) =
      let (closed, less) = Move-work m c in
      let (few, returns) = Moves-return n w₂ w' (goes_on r m) closed ms in (omega arith, returns)
