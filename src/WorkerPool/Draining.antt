-- ===== src/WorkerPool/Draining.antt =====
-- workerpool.go: the pool that closes. Its workers return only once the queue is empty.
use golang_service_architect.Common.{ℕ, ◌<◌, ◌≡◌, true, false, [], ◌⊎◌}
use golang_service_architect.WorkerPool.{Activity, Pool, Step}
use golang_service_architect.WorkerPool.Sound.{total}

module _ {T : Type 0} where
  -- Whether a worker has seen the stop and drains the queue.
  abbrev retiring : Activity T → ℕ
  retiring Activity.draining = 1
  retiring (Activity.clearing t) = 1
  retiring _ = 0

  -- Somebody works, or there is nothing to do.
  abbrev IsManned : Pool T → Type 0
  IsManned s = (0 < s.workers) ⊎ (s.queue ≡ [])

  -- What a turn keeps, given which workers drain before it and behind it.
  record Keeps (held : ℕ) (s : Pool T) (held' : ℕ) (s' : Pool T) : Type 0 where
    stopping : s'.stopping ≡ s.stopping
    calm :
        s.stopping ≡ false
        → held ≡ 0
        → 0 < s.cfg.min
        → 0 < s.workers
        → (held' ≡ 0) × (0 < s'.workers)
    manned : 0 < s.cfg.min → IsManned s → IsManned s'

  abbrev KeepsActivity : Activity T → Pool T → Activity T × Pool T → Type 0
  KeepsActivity a s r = Keeps (retiring a) s (retiring r.0) r.1

  -- The pool takes tasks, and nobody drains; or it closes, and somebody works or the queue is empty.
  record IsTended (s : Pool T) : Type 0 where
    some_min : 0 < s.cfg.min
    phase :
        ((s.stopping ≡ false) × (0 < s.workers) × (total retiring s.staff ≡ 0))
        ⊎ ((s.stopping ≡ true) × IsManned s)

  -- Where a submission finds the pool closed and the queue with room, its select takes the stop.
  abbrev pub PrefersStop : Step T → Type 0
  PrefersStop (Step.submitted prefers_stop t) = prefers_stop ≡ true
  PrefersStop _ = Unit
