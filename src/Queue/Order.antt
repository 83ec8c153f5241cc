-- ===== src/Queue/Order.antt =====
-- Executions of the queue: first in, first out, nothing lost, and what the
-- end means.
use kronos_engine.Prelude.{
  ◌≡◌, refl, ap, ◌∙◌, sym, true, false, none, some, List, [], ◌∷◌, ◌++◌, append_assoc, append-nil,
  arith,
}
use kronos_engine.Queue.{ThreadSafeQueue, init, push, wait_and_pop, shutdown}

-- What a call did, as its caller sees it.
pub data Event {ℓ} (T : Type ℓ) : Type ℓ where
  accepted refused popped : T → Event T
  ended shut : Event T

-- One operation of some thread.
pub data Step {ℓ} {T : Type ℓ} : ThreadSafeQueue T → Event T → ThreadSafeQueue T → Type ℓ where
  push_accepted :
      {q q' : ThreadSafeQueue T} (task : T) → push task q ≡ (q', true) → Step q (accepted task) q'
  push_refused :
      {q q' : ThreadSafeQueue T} (task : T) → push task q ≡ (q', false) → Step q (refused task) q'
  pop_task :
      {q q' : ThreadSafeQueue T} (task : T)
      → wait_and_pop q ≡ some (q', some task)
      → Step q (popped task) q'
  pop_end : {q q' : ThreadSafeQueue T} → wait_and_pop q ≡ some (q', none) → Step q ended q'
  shut_down : {q : ThreadSafeQueue T} → Step q shut (shutdown q)

-- Operations of any threads, one after the other.
pub data Execution {ℓ} {T : Type ℓ}
    : ThreadSafeQueue T → List (Event T) → ThreadSafeQueue T → Type ℓ where
  rest : {q : ThreadSafeQueue T} → Execution q [] q
  more :
      {q₁ q₂ q₃ : ThreadSafeQueue T} {e : Event T} {es : List (Event T)}
      → Step q₁ e q₂
      → Execution q₂ es q₃
      → Execution q₁ (e ∷ es) q₃

module _ {ℓ} {T : Type ℓ} where
  -- The tasks that were accepted, and those that were handed out, in order.
  abbrev pub pushed : List (Event T) → List T
  pushed [] = []
  pushed (accepted task ∷ es) = task ∷ pushed es
  pushed (refused task ∷ es) = pushed es
  pushed (popped task ∷ es) = pushed es
  pushed (ended ∷ es) = pushed es
  pushed (shut ∷ es) = pushed es

  abbrev pub handed_out : List (Event T) → List T
  handed_out [] = []
  handed_out (accepted task ∷ es) = handed_out es
  handed_out (refused task ∷ es) = handed_out es
  handed_out (popped task ∷ es) = task ∷ handed_out es
  handed_out (ended ∷ es) = handed_out es
  handed_out (shut ∷ es) = handed_out es

  push-accepted :
      (task : T) (q q' : ThreadSafeQueue T)
      → push task q ≡ (q', true)
      → (q'.queue ≡ q.queue ++ task ∷ []) × (q.shutting_down ≡ false) × (q'.shutting_down ≡ false)
  unfolding push
  push-accepted task q q' h = ground arith

  push-refused :
      (task : T) (q q' : ThreadSafeQueue T)
      → push task q ≡ (q', false)
      → (q' ≡ q) × (q.shutting_down ≡ true)
  unfolding push
  push-refused task q q' h = ground arith

  pop-task :
      (task : T) (q q' : ThreadSafeQueue T)
      → wait_and_pop q ≡ some (q', some task)
      → (q.queue ≡ task ∷ q'.queue) × (q'.shutting_down ≡ q.shutting_down)
  unfolding wait_and_pop
  pop-task task q q' h = ground arith

  pop-end :
      (q q' : ThreadSafeQueue T)
      → wait_and_pop q ≡ some (q', none)
      → (q' ≡ q) × (q.queue ≡ []) × (q.shutting_down ≡ true)
  unfolding wait_and_pop
  pop-end q q' h = ground arith

  shutdown-keeps :
      (q : ThreadSafeQueue T) → ((shutdown q).queue ≡ q.queue) × ((shutdown q).shutting_down ≡ true)
  unfolding shutdown
  shutdown-keeps q = ground arith

  -- First in, first out, and nothing is lost or made up: over any execution, the tasks that wait at
  -- its start and those accepted in it are, in this order, those handed out and those that wait at
  -- its end.
  pub Execution-fifo :
      (q q' : ThreadSafeQueue T) (es : List (Event T))
      → Execution q es q'
      → q.queue ++ pushed es ≡ handed_out es ++ q'.queue
  Execution-fifo q q' [] rest = append-nil q.queue
  Execution-fifo q q' (e ∷ es) (more {q₂ = q₂} (push_accepted task h) x) =
      let (queue, _, _) = push-accepted task q q₂ h in
      sym (append_assoc q.queue (task ∷ []) (pushed es))
      ∙ ap (λ ts. ts ++ pushed es) (sym queue)
      ∙ Execution-fifo q₂ q' es x
  Execution-fifo q q' (e ∷ es) (more {q₂ = q₂} (push_refused task h) x) =
      ap (λ (p : ThreadSafeQueue T). p.queue ++ pushed es) (sym (push-refused task q q₂ h).0)
      ∙ Execution-fifo q₂ q' es x
  Execution-fifo q q' (e ∷ es) (more {q₂ = q₂} (pop_task task h) x) =
      ap (λ ts. ts ++ pushed es) (pop-task task q q₂ h).0
      ∙ ap (◌∷◌ task) (Execution-fifo q₂ q' es x)
  Execution-fifo q q' (e ∷ es) (more {q₂ = q₂} (pop_end h) x) =
      ap (λ (p : ThreadSafeQueue T). p.queue ++ pushed es) (sym (pop-end q q₂ h).0)
      ∙ Execution-fifo q₂ q' es x
  Execution-fifo q q' (e ∷ es) (more shut_down x) =
      ap (λ ts. ts ++ pushed es) (sym (shutdown-keeps q).0) ∙ Execution-fifo (shutdown q) q' es x

  -- A queue that is shut down stays so, and accepts nothing more.
  Execution-shut :
      (q q' : ThreadSafeQueue T) (es : List (Event T))
      → Execution q es q'
      → q.shutting_down ≡ true
      → (pushed es ≡ []) × (q'.shutting_down ≡ true)
  Execution-shut q q' [] rest c = (refl, c)
  Execution-shut q q' (e ∷ es) (more {q₂ = q₂} (push_accepted task h) x) c =
      (let (_, still, _) = push-accepted task q q₂ h in absurd (cc (still, c)))
  Execution-shut q q' (e ∷ es) (more {q₂ = q₂} (push_refused task h) x) c =
      Execution-shut q₂ q' es x
        (ap (λ (p : ThreadSafeQueue T). p.shutting_down) (push-refused task q q₂ h).0 ∙ c)
  Execution-shut q q' (e ∷ es) (more {q₂ = q₂} (pop_task task h) x) c =
      Execution-shut q₂ q' es x ((pop-task task q q₂ h).1 ∙ c)
  Execution-shut q q' (e ∷ es) (more {q₂ = q₂} (pop_end h) x) c =
      Execution-shut q₂ q' es x
        (ap (λ (p : ThreadSafeQueue T). p.shutting_down) (pop-end q q₂ h).0 ∙ c)
  Execution-shut q q' (e ∷ es) (more shut_down x) c =
      Execution-shut (shutdown q) q' es x (shutdown-keeps q).1

  -- When a consumer of a queue that began empty is told the end, every task that was ever accepted
  -- has been handed out, in the order of acceptance; and in whatever the threads do afterwards,
  -- nothing more is accepted or handed out.
  pub Execution-ended :
      (q q' : ThreadSafeQueue T) (es later : List (Event T)) (end : ThreadSafeQueue T)
      → Execution init es q
      → Step q ended q'
      → Execution q' later end
      → (handed_out es ≡ pushed es) × (pushed later ≡ []) × (handed_out later ≡ [])
  unfolding init
  Execution-ended q q' es later end x (pop_end h) y =
      let (same, empty, closed) = pop-end q q' h in
      let (none_pushed, _) =
        Execution-shut q' end later y
          (ap (λ (p : ThreadSafeQueue T). p.shutting_down) same ∙ closed) in
      let left : [] ≡ handed_out later ++ end.queue =
        sym empty
        ∙ ap (λ (p : ThreadSafeQueue T). p.queue) (sym same)
        ∙ sym (append-nil q'.queue)
        ∙ ap (◌++◌ q'.queue) (sym none_pushed)
        ∙ Execution-fifo q' end later y in
      (
        sym (append-nil (handed_out es))
            ∙ ap (◌++◌ (handed_out es)) (sym empty)
            ∙ sym (Execution-fifo init q es x),
        none_pushed,
        front-nil (handed_out later) end.queue left,
      )
    where
      front-nil : (xs ys : List T) → [] ≡ xs ++ ys → xs ≡ []
      front-nil [] ys e = refl
      front-nil (x ∷ xs) ys e = absurd (cc e)
