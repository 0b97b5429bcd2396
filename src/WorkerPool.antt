-- ===== src/WorkerPool.antt =====
-- backend/pkg/workerpool/workerpool.go: the pool as steps of its goroutines. A step is one case of a
-- select with what follows it up to the next wait, or the start or the end of a task.
pub mod Sound
pub mod History
pub mod Draining
mod Tests
use golang_service_architect.Common.{
  ℕ, zero, suc, ◌+◌, ◌-◌, ◌/◌, ◌^◌, Bool, true, false, not, ◌&&◌, ◌||◌, List, [], ◌∷◌, ◌++◌, length,
  ltb, leb, ◌==◌, if◌then◌else◌,
}

-- `Config`, without the times: they only say when a timer fires.
pub record Config : Type 0 where
  pub min : ℕ
  pub max : ℕ
  pub queue_size : ℕ

abbrev pub max_pool_size : ℕ
max_pool_size = 2 ^ 20

-- `defaults`
abbrev pub at_least_one : ℕ → ℕ
at_least_one zero = 1
at_least_one (suc n) = suc n

abbrev pub at_most : ℕ → ℕ → ℕ
at_most top n = if ltb top n then top else n

abbrev pub size_or_default : ℕ → ℕ
size_or_default zero = 64
size_or_default (suc n) = suc n

unfoldable pub defaults : Config → Config
defaults c =
    let min = at_most max_pool_size (at_least_one c.min) in
    record {
      min = min;
      max = at_most max_pool_size (if ltb c.max min then min else c.max);
      queue_size = size_or_default c.queue_size;
    }

-- Where a worker is: in the select of `runWorker`, in a task, in `drain`, in a task of `drain`, or
-- behind its return.
pub data Activity (T : Type 0) : Type 0 where
  waiting : Activity T
  working : T → Activity T
  draining : Activity T
  clearing : T → Activity T
  gone : Activity T

pub record Worker (T : Type 0) : Type 0 where
  pub transient : Bool
  pub activity : Activity T

-- `Pool`, with its atomic counters and its goroutines.
pub record Pool (T : Type 0) : Type 0 where
  pub cfg : Config
  pub queue : List T
  pub workers : ℕ
  pub busy : ℕ
  pub finished : ℕ
  pub stopping : Bool
  pub staff : List (Worker T)

-- The next event of a worker.
pub data Turn : Type 0 where
  took ended timed_out stopped : Turn

-- The events of a pool; a submission says which case its select prefers where two are ready.
pub data Step (T : Type 0) : Type 0 where
  submitted : Bool → T → Step T
  closed scaled : Step T
  turned : ℕ → Turn → Step T

module _ {T : Type 0} where
  -- `spawn`
  unfoldable pub spawn : Bool → Pool T → Pool T
  spawn transient s = record s {
    workers = s.workers + 1;
    staff = s.staff ++ record { transient = transient; activity = Activity.waiting } ∷ [];
  }

  unfoldable pub spawn_core : ℕ → Pool T → Pool T
  unfolding spawn
  spawn_core zero s = s
  spawn_core (suc n) s = spawn_core n (spawn false s)

  -- `New`
  unfoldable pub new_pool : Config → Pool T
  unfolding defaults spawn_core
  new_pool c = spawn_core (defaults c).min (record {
    cfg = defaults c;
    queue = [];
    workers = 0;
    busy = 0;
    finished = 0;
    stopping = false;
    staff = [];
  })

  -- `Submit`: 1 where the task is accepted; where no case is ready, it waits.
  unfoldable pub submit : Bool → T → Pool T → ℕ × Pool T
  submit prefers_stop t s =
      if s.stopping && (prefers_stop || not (ltb (length s.queue) s.cfg.queue_size))
      then (0, s)
      else if ltb (length s.queue) s.cfg.queue_size
      then (1, record s { queue = s.queue ++ t ∷ [] })
      else (0, s)

  -- `maybeGrow`
  unfoldable pub grow : ℕ → Pool T → Pool T
  unfolding spawn
  grow zero s = s
  grow (suc n) s = let more = grow n (spawn true s) in if ltb s.workers s.cfg.max then more else s

  unfoldable pub maybe_grow : Pool T → Pool T
  unfolding grow
  maybe_grow s =
      if length s.queue == 0 || leb s.cfg.max s.workers then s else grow (length s.queue / 2 + 1) s

  -- A case of the select of `runWorker`, `execute` and `drain`; a case that is not ready does nothing.
  abbrev pub take_task : Activity T → List T → Pool T → Activity T × Pool T
  take_task Activity.waiting (t ∷ queue) s =
      (Activity.working t, record s { queue = queue; busy = s.busy + 1 })
  take_task Activity.draining (t ∷ queue) s = (Activity.clearing t, record s { queue = queue })
  take_task Activity.draining [] s = (Activity.gone, record s { workers = s.workers - 1 })
  take_task activity queue s = (activity, s)

  abbrev pub end_task : Activity T → Pool T → Activity T × Pool T
  end_task (Activity.working t) s =
      (Activity.waiting, record s { busy = s.busy - 1; finished = s.finished + 1 })
  end_task (Activity.clearing t) s = (Activity.draining, record s { finished = s.finished + 1 })
  end_task activity s = (activity, s)

  abbrev pub time_out : Bool → Activity T → Pool T → Activity T × Pool T
  time_out true Activity.waiting s =
      if ltb s.cfg.min s.workers
      then (Activity.gone, record s { workers = s.workers - 1 })
      else (Activity.waiting, s)
  time_out transient activity s = (activity, s)

  abbrev pub see_stop : Bool → Activity T → Activity T
  see_stop true Activity.waiting = Activity.draining
  see_stop stopping activity = activity

  unfoldable pub turn : Turn → Worker T → Pool T → Activity T × Pool T
  turn Turn.took w s = take_task w.activity s.queue s
  turn Turn.ended w s = end_task w.activity s
  turn Turn.timed_out w s = time_out w.transient w.activity s
  turn Turn.stopped w s = (see_stop s.stopping w.activity, s)

  -- The turn of the worker at a place; the others stay as they are.
  unfoldable pub turn_at : ℕ → Turn → List (Worker T) → Pool T → List (Worker T) × Pool T
  unfolding turn
  turn_at i event [] s = ([], s)
  turn_at zero event (w ∷ staff) s =
      let (activity, s') = turn event w s in (record w { activity = activity } ∷ staff, s')
  turn_at (suc i) event (w ∷ staff) s =
      let (staff', s') = turn_at i event staff s in (w ∷ staff', s')

  -- One event, with the number of the tasks that it accepts.
  unfoldable pub step : Step T → Pool T → ℕ × Pool T
  unfolding submit maybe_grow turn_at
  step (Step.submitted prefers_stop t) s = submit prefers_stop t s
  step Step.closed s = (0, record s { stopping = true })
  step Step.scaled s = (0, maybe_grow s)
  step (Step.turned i event) s =
      let (staff, s') = turn_at i event s.staff s in (0, record s' { staff = staff })
