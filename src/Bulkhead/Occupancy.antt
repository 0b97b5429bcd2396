-- ===== src/Bulkhead/Occupancy.antt =====
-- bulkhead.go: how many calls run.
use golang_service_architect.Common.{ℕ, ◌+◌, ◌≤◌, ◌≡◌, refl, arith, String}
use golang_service_architect.Bulkhead.{
  at_least_one, new_bulkhead, World, Step, acquires, sheds, gives_up, begins, returns, leaves,
  Reach, done, next, idle,
}

-- The counters tell the calls, and the slots are at most the capacity.
pub record IsSound (capacity : ℕ) (w : World) : Type 0 where
  pub bound : w.bulkhead.capacity ≡ capacity
  pub slots : w.bulkhead.slots ≡ w.admitted + w.running
  pub counted : w.bulkhead.in_flight ≡ w.running + w.leaving
  pub within : w.admitted + w.running ≤ capacity

IsSound-Step : {c : ℕ} {v w : World} → IsSound c v → Step v w → IsSound c w
IsSound-Step s (acquires h) = record {
  bound = s.bound;
  slots = omega (arith, s.slots);
  counted = s.counted;
  within = omega (arith, h, s.slots, s.bound);
}
IsSound-Step s (sheds h) = record {
  bound = s.bound;
  slots = s.slots;
  counted = s.counted;
  within = s.within;
}
IsSound-Step s gives_up = record {
  bound = s.bound;
  slots = s.slots;
  counted = s.counted;
  within = s.within;
}
IsSound-Step s (begins h) = record {
  bound = s.bound;
  slots = omega (arith, s.slots, h);
  counted = omega (arith, s.counted, h);
  within = omega (arith, s.within, h);
}
IsSound-Step s (returns h) = record {
  bound = s.bound;
  slots = omega (arith, s.slots, h);
  counted = omega (arith, s.counted, h);
  within = omega (arith, s.within, h);
}
IsSound-Step s (leaves h) = record {
  bound = s.bound;
  slots = s.slots;
  counted = omega (arith, s.counted, h);
  within = s.within;
}

IsSound-Reach : {c : ℕ} {v w : World} → IsSound c v → Reach v w → IsSound c w
IsSound-Reach s done = s
IsSound-Reach s (next step rest) = IsSound-Reach (IsSound-Step s step) rest

-- However the calls of a new bulkhead interleave, its slots are taken by the calls that have one,
-- at most as many as its capacity (one, where none is asked for), so no more functions run at once;
-- and its count of calls in flight is that of the running and of the leaving ones.
pub Reach-IsSound :
    (name : String) (capacity : ℕ) {w : World}
    → Reach (idle (new_bulkhead name capacity)) w
    → IsSound (at_least_one capacity) w
Reach-IsSound name capacity reach =
    IsSound-Reach
      (record { bound = refl; slots = omega arith; counted = omega arith; within = omega arith })
      reach
