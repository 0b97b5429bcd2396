-- ===== src/Bulkhead/Tests.antt =====
-- A bulkhead of one slot.
use golang_service_architect.Common.{arith}
use golang_service_architect.Bulkhead.{
  new_bulkhead, World, acquires, sheds, begins, returns, Reach, done, next, idle,
}
use golang_service_architect.Bulkhead.Occupancy.{IsSound, Reach-IsSound}

-- One call runs and leaves, one was shed.
abbrev busy : World
busy = record {
  bulkhead = record (new_bulkhead "db" 1) { slots = 0; in_flight = 1; rejected = 1 };
  admitted = 0;
  running = 0;
  leaving = 1;
}

busy-reached : Reach (idle (new_bulkhead "db" 1)) busy
busy-reached =
    next (acquires (omega arith))
      (next (sheds (omega arith)) (next (begins (omega arith)) (next (returns (omega arith)) done)))

Reach-IsSound_example : IsSound 1 busy
Reach-IsSound_example = Reach-IsSound "db" 1 busy-reached
