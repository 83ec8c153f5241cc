-- ===== src/Queue/Examples.antt =====
-- The theorems on the queue, at a run that accepts two tasks and drains them, and at consumers that
-- sleep.
use kronos_engine.Prelude.{ℕ, ◌≤◌, ◌≡◌, refl, true, false, List, [], ◌∷◌, ◌++◌, arith}
use kronos_engine.Queue.{ThreadSafeQueue, init, push, wait_and_pop, shutdown}
use kronos_engine.Queue.Order.{
  Event, accepted, refused, popped, ended, shut, Step, Execution, rest, more, push_accepted,
  push_refused, pop_task, pop_end, shut_down, pushed, handed_out, Execution-fifo, Execution-ended,
}
use kronos_engine.Queue.Waking.{
  Threads, idle, enter, push_locked, shutdown_locked, consumer_turn, wake_one, notify_one,
  notify_all, take_mutex, notified_one, notified_all, Reach, start, calls_wait, calls_push,
  calls_shutdown, goes_on, Moves, stay, move,
}
use kronos_engine.Queue.Woken.{IsQuiet, work, Reach-woken, Moves-return}

abbrev closed : List ℕ → ThreadSafeQueue ℕ
closed tasks = record { queue = tasks; shutting_down = true }

abbrev events : List (Event ℕ)
events = accepted 5 ∷ accepted 6 ∷ popped 5 ∷ shut ∷ refused 7 ∷ popped 6 ∷ []

run : Execution init events (closed [])
unfolding init push wait_and_pop shutdown
run = more (push_accepted 5 refl) (
    more (push_accepted 6 refl) (
      more (pop_task 5 refl)
        (more shut_down (more (push_refused 7 refl) (more (pop_task 6 refl) rest)))))

ends : Step (closed []) ended (closed [])
unfolding wait_and_pop
ends = pop_end refl

Execution-fifo_example : (init {T = ℕ}).queue ++ pushed events ≡ handed_out events ++ []
Execution-fifo_example = Execution-fifo init (closed []) events run

Execution-ended_example :
    (handed_out events ≡ pushed events)
    × (pushed {T = ℕ} (ended ∷ []) ≡ [])
    × (handed_out {T = ℕ} (ended ∷ []) ≡ [])
Execution-ended_example =
    Execution-ended (closed []) (closed []) events (ended ∷ []) (closed []) run ends
      (more ends rest)

-- Two consumers fall asleep, a task wakes one of them, and it takes the task.
abbrev asleep : Threads ℕ
asleep = consumer_turn (consumer_turn (enter (enter idle)))

abbrev served : Threads ℕ
served = consumer_turn (notify_one (push_locked 5 asleep))

asleep-Reach : Reach asleep
unfolding idle enter consumer_turn wait_and_pop init
asleep-Reach =
    goes_on (goes_on (calls_wait (calls_wait start)) (take_mutex (omega arith)))
      (take_mutex (omega arith))

served-Reach : Reach served
unfolding idle enter consumer_turn push_locked push notify_one wake_one wait_and_pop init
served-Reach =
    goes_on (goes_on (calls_push 5 asleep-Reach) (notified_one (omega arith)))
      (take_mutex (omega arith))

served_state : served ≡ record {
  tasks = record { queue = []; shutting_down = false };
  ready = 0;
  sleeping = 1;
  before_one = 0;
  before_all = 0;
}
unfolding idle enter consumer_turn push_locked push notify_one wake_one wait_and_pop init
served_state = refl

Reach-woken_example : (served.tasks.queue ≡ []) × (served.tasks.shutting_down ≡ false)
unfolding idle enter consumer_turn push_locked push notify_one wake_one wait_and_pop init
Reach-woken_example = Reach-woken served served-Reach (refl, refl, refl) (omega arith)

-- The two are asleep when the queue is shut down; both return.
abbrev closing : Threads ℕ
closing = shutdown_locked asleep

abbrev returned : Threads ℕ
returned = consumer_turn (consumer_turn (notify_all closing))

all_return : Moves 3 closing returned
unfolding idle enter consumer_turn shutdown_locked shutdown notify_all wait_and_pop init
all_return =
    move (notified_all (omega arith))
      (move (take_mutex (omega arith)) (move (take_mutex (omega arith)) stay))

Moves-return_example : (3 ≤ work closing) × (IsQuiet returned → returned.sleeping ≡ 0)
unfolding idle enter consumer_turn shutdown_locked shutdown wait_and_pop init
Moves-return_example = Moves-return 3 closing returned (calls_shutdown asleep-Reach) refl all_return
