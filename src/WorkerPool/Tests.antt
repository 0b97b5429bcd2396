-- ===== src/WorkerPool/Tests.antt =====
-- The pool on a few tasks.
use golang_service_architect.Common.{ℕ, ◌≡◌, refl, List, [], ◌∷◌, length, false, true}
use golang_service_architect.WorkerPool.{
  Config, defaults, Pool, Turn, Step, new_pool, spawn, spawn_core, submit, turn, turn_at, step,
}
use golang_service_architect.WorkerPool.Sound.{alive, total}
use golang_service_architect.WorkerPool.History.{run}

abbrev pair : Config
pair = record { min = 1; max = 2; queue_size = 4 }

-- A task is submitted, the pool closes, and the worker drains the queue before it returns.
abbrev drained : List (Step ℕ)
drained =
    Step.submitted true 5
    ∷ Step.closed
    ∷ Step.turned 0 Turn.stopped
    ∷ Step.turned 0 Turn.took
    ∷ Step.turned 0 Turn.ended
    ∷ Step.submitted true 6
    ∷ Step.turned 0 Turn.took
    ∷ []

-- A submission behind the closing, when the only worker has drained the queue and returned: the task
-- is accepted, and nobody is left to run it.
abbrev late : List (Step ℕ)
late =
    Step.closed ∷ Step.turned 0 Turn.stopped ∷ Step.turned 0 Turn.took ∷ Step.submitted false 5 ∷ []

abbrev stranded : Pool ℕ
stranded = (run late (new_pool pair)).1

late_accepted : (run late (new_pool pair)).0 ≡ 1
unfolding new_pool defaults spawn_core spawn step submit turn_at turn
late_accepted = refl

late_stranded : (total alive stranded.staff ≡ 0) × (length stranded.queue ≡ 1)
unfolding new_pool defaults spawn_core spawn step submit turn_at turn
late_stranded = (refl, refl)
