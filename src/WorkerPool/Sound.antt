-- ===== src/WorkerPool/Sound.antt =====
-- workerpool.go: the counters tell what the goroutines do, and no accepted task is lost.
use golang_service_architect.Common.{
  ℕ, zero, suc, ◌+◌, ◌≤◌, ◌≡◌, refl, Bool, true, false, List, [], ◌∷◌, ◌++◌, length, ltb,
  Bool-cases, inl, inr, arith,
}
use golang_service_architect.WorkerPool.{
  Activity, Worker, Pool, Turn, take_task, end_task, time_out, see_stop, turn, turn_at,
}

module _ {T : Type 0} where
  -- The tasks in a worker's hands, whether it is alive, and whether it counts as busy.
  abbrev pub in_hand : Activity T → ℕ
  in_hand (Activity.working t) = 1
  in_hand (Activity.clearing t) = 1
  in_hand _ = 0

  abbrev pub alive : Activity T → ℕ
  alive Activity.gone = 0
  alive _ = 1

  abbrev pub working : Activity T → ℕ
  working (Activity.working t) = 1
  working _ = 0

  abbrev pub total : (Activity T → ℕ) → List (Worker T) → ℕ
  total measure [] = 0
  total measure (w ∷ staff) = measure w.activity + total measure staff

  pub total-append :
      (measure : Activity T → ℕ) (a b : List (Worker T))
      → total measure (a ++ b) ≡ total measure a + total measure b
  total-append measure [] b = omega arith
  total-append measure (w ∷ a) b = omega (arith, total-append measure a b)

  -- What a turn does to the counters: from the sums of the measures before it to those behind it.
  pub record Moves (held lives busies : ℕ) (s : Pool T) (held' lives' busies' : ℕ) (s' : Pool T)
      : Type 0 where
    pub tasks : s'.finished + held' + length s'.queue ≡ s.finished + held + length s.queue
    pub live : lives ≤ s.workers → s'.workers + lives ≡ s.workers + lives'
    pub busy : busies ≤ s.busy → s'.busy + busies ≡ s.busy + busies'
    pub fewer : s'.workers ≤ s.workers
    pub shorter : length s'.queue ≤ length s.queue
    pub cfg : s'.cfg ≡ s.cfg

  abbrev MovesActivity : Activity T → Pool T → Activity T × Pool T → Type 0
  MovesActivity a s r =
      Moves (in_hand a) (alive a) (working a) s (in_hand r.0) (alive r.0) (working r.0) r.1

  Moves-none : (a : Activity T) (s : Pool T) → MovesActivity a s (a, s)
  Moves-none a s = record {
    tasks = refl;
    live = λ h. refl;
    busy = λ h. refl;
    fewer = omega arith;
    shorter = omega arith;
    cfg = refl;
  }

  take_task-Moves :
      (a : Activity T) (queue : List T) (s : Pool T)
      → length s.queue ≡ length queue
      → MovesActivity a s (take_task a queue s)
  take_task-Moves Activity.waiting [] s h = Moves-none Activity.waiting s
  take_task-Moves Activity.waiting (t ∷ queue) s h = record {
    tasks = omega (arith, h);
    live = λ k. refl;
    busy = λ k. omega arith;
    fewer = omega arith;
    shorter = omega (arith, h);
    cfg = refl;
  }
  take_task-Moves (Activity.working t) queue s h = Moves-none (Activity.working t) s
  take_task-Moves Activity.draining [] s h = record {
    tasks = refl;
    live = λ k. omega (arith, k);
    busy = λ k. refl;
    fewer = omega arith;
    shorter = omega arith;
    cfg = refl;
  }
  take_task-Moves Activity.draining (t ∷ queue) s h = record {
    tasks = omega (arith, h);
    live = λ k. refl;
    busy = λ k. refl;
    fewer = omega arith;
    shorter = omega (arith, h);
    cfg = refl;
  }
  take_task-Moves (Activity.clearing t) queue s h = Moves-none (Activity.clearing t) s
  take_task-Moves Activity.gone queue s h = Moves-none Activity.gone s

  end_task-Moves : (a : Activity T) (s : Pool T) → MovesActivity a s (end_task a s)
  end_task-Moves Activity.waiting s = Moves-none Activity.waiting s
  end_task-Moves (Activity.working t) s = record {
    tasks = omega arith;
    live = λ k. refl;
    busy = λ k. omega (arith, k);
    fewer = omega arith;
    shorter = omega arith;
    cfg = refl;
  }
  end_task-Moves Activity.draining s = Moves-none Activity.draining s
  end_task-Moves (Activity.clearing t) s = record {
    tasks = omega arith;
    live = λ k. refl;
    busy = λ k. refl;
    fewer = omega arith;
    shorter = omega arith;
    cfg = refl;
  }
  end_task-Moves Activity.gone s = Moves-none Activity.gone s

  time_out-Moves :
      (transient : Bool) (a : Activity T) (s : Pool T) → MovesActivity a s (time_out transient a s)
  time_out-Moves false a s = Moves-none a s
  time_out-Moves true Activity.waiting s = elim (Bool-cases (ltb s.cfg.min s.workers)) [
    | inr few ↦ rw few (Moves-none Activity.waiting s)
    | inl many ↦ rw many (record {
      tasks = refl;
      live = λ k. omega (arith, k);
      busy = λ k. refl;
      fewer = omega arith;
      shorter = omega arith;
      cfg = refl;
    })
  ]
  time_out-Moves true (Activity.working t) s = Moves-none (Activity.working t) s
  time_out-Moves true Activity.draining s = Moves-none Activity.draining s
  time_out-Moves true (Activity.clearing t) s = Moves-none (Activity.clearing t) s
  time_out-Moves true Activity.gone s = Moves-none Activity.gone s

  see_stop-Moves :
      (stopping : Bool) (a : Activity T) (s : Pool T) → MovesActivity a s (see_stop stopping a, s)
  see_stop-Moves false a s = Moves-none a s
  see_stop-Moves true Activity.waiting s = Moves-none Activity.waiting s
  see_stop-Moves true (Activity.working t) s = Moves-none (Activity.working t) s
  see_stop-Moves true Activity.draining s = Moves-none Activity.draining s
  see_stop-Moves true (Activity.clearing t) s = Moves-none (Activity.clearing t) s
  see_stop-Moves true Activity.gone s = Moves-none Activity.gone s

  turn-Moves :
      (event : Turn) (w : Worker T) (s : Pool T) → MovesActivity w.activity s (turn event w s)
  unfolding turn
  turn-Moves Turn.took w s = take_task-Moves w.activity s.queue s refl
  turn-Moves Turn.ended w s = end_task-Moves w.activity s
  turn-Moves Turn.timed_out w s = time_out-Moves w.transient w.activity s
  turn-Moves Turn.stopped w s = see_stop-Moves s.stopping w.activity s

  abbrev pub MovesStaff : List (Worker T) → Pool T → List (Worker T) × Pool T → Type 0
  MovesStaff staff s r =
      Moves (total in_hand staff) (total alive staff) (total working staff) s (total in_hand r.0)
        (total alive r.0) (total working r.0) r.1

  pub turn_at-Moves :
      (i : ℕ) (event : Turn) (staff : List (Worker T)) (s : Pool T)
      → MovesStaff staff s (turn_at i event staff s)
  unfolding turn_at
  turn_at-Moves i event [] s = record {
    tasks = refl;
    live = λ h. refl;
    busy = λ h. refl;
    fewer = omega arith;
    shorter = omega arith;
    cfg = refl;
  }
  turn_at-Moves zero event (w ∷ staff) s =
      let m = turn-Moves event w s in
      record {
        tasks = omega (arith, m.tasks);
        live = λ h. omega (arith, h, m.live (omega (arith, h)));
        busy = λ h. omega (arith, h, m.busy (omega (arith, h)));
        fewer = m.fewer;
        shorter = m.shorter;
        cfg = m.cfg;
      }
  turn_at-Moves (suc i) event (w ∷ staff) s =
      let m = turn_at-Moves i event staff s in
      record {
        tasks = omega (arith, m.tasks);
        live = λ h. omega (arith, h, m.live (omega (arith, h)));
        busy = λ h. omega (arith, h, m.busy (omega (arith, h)));
        fewer = m.fewer;
        shorter = m.shorter;
        cfg = m.cfg;
      }
