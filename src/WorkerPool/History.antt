-- ===== src/WorkerPool/History.antt =====
-- workerpool.go: the pool behind any sequence of events.
use golang_service_architect.Common.{
  ℕ, zero, suc, ◌+◌, ◌/◌, ◌≤◌, ◌<◌, ◌≡◌, refl, sym, Bool, true, false, not, ◌&&◌, ◌||◌, List, [],
  ◌∷◌, length, length-append, ltb, leb, ◌==◌, if◌then◌else◌, Bool-cases, inl, inr, arith, ltb→lt,
  subst,
}
use golang_service_architect.WorkerPool.{
  Config, at_least_one, at_most, max_pool_size, defaults, Activity, Worker, Pool, Step, spawn,
  spawn_core, new_pool, submit, grow, maybe_grow, turn_at, step,
}
use golang_service_architect.WorkerPool.Sound.{
  in_hand, alive, working, total, total-append, turn_at-Moves,
}

defaults-ordered : (c : Config) → 0 + (defaults c).min ≤ (defaults c).max
unfolding defaults
defaults-ordered c = go (at_least_one c.min) c.max
  where
    go :
        (low high : ℕ)
        → 0 + at_most max_pool_size low
          ≤ at_most max_pool_size
              (if ltb high (at_most max_pool_size low) then at_most max_pool_size low else high)
    go low high = ground arith

module _ {T : Type 0} where
  -- Each accepted task is finished, in a worker's hands or in the queue; the counters are the numbers
  -- of the live and of the busy workers; and the bounds of the configuration hold.
  pub record IsSound (accepted : ℕ) (s : Pool T) : Type 0 where
    pub tasks : accepted ≡ s.finished + total in_hand s.staff + length s.queue
    pub workers : s.workers ≡ total alive s.staff
    pub busy : s.busy ≡ total working s.staff
    pub top : s.workers ≤ s.cfg.max
    pub room : length s.queue ≤ s.cfg.queue_size

  spawn-IsSound :
      (transient : Bool) (n : ℕ) (s : Pool T)
      → s.workers < s.cfg.max
      → IsSound n s
      → IsSound n (spawn transient s)
  unfolding spawn
  spawn-IsSound transient n s below h =
      let fresh : List (Worker T) =
        record { transient = transient; activity = Activity.waiting } ∷ [] in
      record {
        tasks = omega (arith, h.tasks, total-append in_hand s.staff fresh);
        workers = omega (arith, h.workers, total-append alive s.staff fresh);
        busy = omega (arith, h.busy, total-append working s.staff fresh);
        top = omega (arith, below);
        room = h.room;
      }

  grow-IsSound : (k n : ℕ) (s : Pool T) → IsSound n s → IsSound n (grow k s)
  unfolding grow
  grow-IsSound zero n s h = h
  grow-IsSound (suc k) n s h = elim (Bool-cases (ltb s.workers s.cfg.max)) [
    | inr full ↦ rw full h
    | inl below ↦ rw below (
        grow-IsSound k n (spawn true s)
          (spawn-IsSound true n s (ltb→lt s.workers s.cfg.max below) h))
  ]

  maybe_grow-IsSound : (n : ℕ) (s : Pool T) → IsSound n s → IsSound n (maybe_grow s)
  unfolding maybe_grow
  maybe_grow-IsSound n s h = elim (Bool-cases (length s.queue == 0 || leb s.cfg.max s.workers)) [
    | inl content ↦ rw content h
    | inr behind ↦ rw behind (grow-IsSound (length s.queue / 2 + 1) n s h)
  ]

  submit-IsSound :
      (prefers_stop : Bool) (t : T) (n : ℕ) (s : Pool T)
      → IsSound n s
      → IsSound (n + (submit prefers_stop t s).0) (submit prefers_stop t s).1
  unfolding submit
  submit-IsSound prefers_stop t n s h =
      let same : n ≡ n + 0 = omega arith in
      let still : IsSound (n + 0) s = subst (λ k. IsSound k s) same h in
      elim (Bool-cases
        (s.stopping && (prefers_stop || not (ltb (length s.queue) s.cfg.queue_size)))) [
          | inl refused ↦ rw refused still
          | inr tries ↦ elim (Bool-cases (ltb (length s.queue) s.cfg.queue_size)) [
            | inr full ↦ rw (submit, tries, full) still
            | inl free ↦
                rw (submit, tries, free)
                  (record {
                    tasks = omega (arith, h.tasks, length-append s.queue (t ∷ []));
                    workers = h.workers;
                    busy = h.busy;
                    top = h.top;
                    room = omega (
                      arith,
                      ltb→lt (length s.queue) s.cfg.queue_size free,
                      length-append s.queue (t ∷ []),
                    );
                  })
          ]
        ]

  step-IsSound :
      (e : Step T) (n : ℕ) (s : Pool T) → IsSound n s → IsSound (n + (step e s).0) (step e s).1
  unfolding step
  step-IsSound (Step.submitted prefers_stop t) n s h = submit-IsSound prefers_stop t n s h
  step-IsSound Step.closed n s h = record {
    tasks = omega (arith, h.tasks);
    workers = h.workers;
    busy = h.busy;
    top = h.top;
    room = h.room;
  }
  step-IsSound Step.scaled n s h =
      let same : n ≡ n + 0 = omega arith in
      subst (λ k. IsSound k (maybe_grow s)) same (maybe_grow-IsSound n s h)
  step-IsSound (Step.turned i event) n s h =
      let m = turn_at-Moves i event s.staff s in
      record {
        tasks = omega (arith, h.tasks, m.tasks);
        workers = omega (arith, h.workers, m.live (omega (arith, h.workers)));
        busy = omega (arith, h.busy, m.busy (omega (arith, h.busy)));
        top =
            subst (λ c. (turn_at i event s.staff s).1.workers ≤ c.max) (sym m.cfg)
              (omega (arith, h.top, m.fewer));
        room =
            subst (λ c. length (turn_at i event s.staff s).1.queue ≤ c.queue_size) (sym m.cfg)
              (omega (arith, h.room, m.shorter));
      }

  -- The events one after another, with the number of the accepted tasks.
  abbrev pub run : List (Step T) → Pool T → ℕ × Pool T
  run [] s = (0, s)
  run (e ∷ events) s = let (n, s₁) = step e s in let (m, s₂) = run events s₁ in (n + m, s₂)

  run-from :
      (events : List (Step T)) (n : ℕ) (s : Pool T)
      → IsSound n s
      → IsSound (n + (run events s).0) (run events s).1
  run-from [] n s h = let same : n ≡ n + 0 = omega arith in subst (λ k. IsSound k s) same h
  run-from (e ∷ events) n s h =
      let first = (step e s).0 in
      let rest = (run events (step e s).1).0 in
      let same : n + first + rest ≡ n + (first + rest) = omega arith in
      subst (λ k. IsSound k (run events (step e s).1).1) same
        (run-from events (n + first) (step e s).1 (step-IsSound e n s h))

  spawn_core-IsSound :
      (k : ℕ) (s : Pool T) → s.workers + k ≤ s.cfg.max → IsSound 0 s → IsSound 0 (spawn_core k s)
  unfolding spawn_core spawn
  spawn_core-IsSound zero s below h = h
  spawn_core-IsSound (suc k) s below h =
      spawn_core-IsSound k (spawn false s) (omega (arith, below))
        (spawn-IsSound false 0 s (omega (arith, below)) h)

  -- However submissions, turns of the workers, timeouts, the autoscaler and the closing follow one
  -- another: each accepted task is finished, in a worker's hands or in the queue, and counted once;
  -- the counters are the numbers of the live and of the busy workers, the workers are no more than
  -- the configured maximum, and the queue is no longer than its size.
  pub run-IsSound :
      (c : Config) (events : List (Step T))
      → IsSound (run events (new_pool c)).0 (run events (new_pool c)).1
  unfolding new_pool
  run-IsSound c events =
      let started : IsSound 0 (new_pool c) =
        spawn_core-IsSound (defaults c).min _ (defaults-ordered c) (record {
          tasks = refl;
          workers = refl;
          busy = refl;
          top = omega arith;
          room = omega arith;
        }) in
      let same : 0 + (run events (new_pool c)).0 ≡ (run events (new_pool c)).0 = omega arith in
      subst (λ k. IsSound k (run events (new_pool c)).1) same
        (run-from events 0 (new_pool c) started)
