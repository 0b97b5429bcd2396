-- ===== src/Bulkhead.antt =====
-- backend/pkg/bulkhead/bulkhead.go. The channel `slots` is the number of its tokens; a call of `Do`
-- or `DoWait` is its atomic steps, between which those of other calls run.
pub mod Occupancy
mod Tests
use golang_service_architect.Common.{
  ℕ, zero, suc, ◌+◌, ◌-◌, ◌<◌, ◌≤◌, String, Bool, Option, none, some, [], ◌∷◌, ltb, if◌then◌else◌,
}
use golang_service_architect.Apperrors.{Error, Code, Arg, newf, wrap}

pub record Bulkhead : Type 0 where
  pub name : String
  pub capacity : ℕ
  pub slots : ℕ
  pub in_flight : ℕ
  pub rejected : ℕ

abbrev pub at_least_one : ℕ → ℕ
at_least_one zero = 1
at_least_one (suc n) = suc n

-- `New`
abbrev pub new_bulkhead : String → ℕ → Bulkhead
new_bulkhead name capacity = record {
  name = name;
  capacity = at_least_one capacity;
  slots = 0;
  in_flight = 0;
  rejected = 0;
}

-- `b.slots <- struct{}{}`, where the channel has room.
abbrev pub take_slot : Bulkhead → Bulkhead
take_slot b = record b { slots = b.slots + 1 }

-- `b.inFlight.Add(1)`
abbrev pub enter : Bulkhead → Bulkhead
enter b = record b { in_flight = b.in_flight + 1 }

-- The two lines of the deferred function, and the `rejected` counter.
abbrev pub free_slot : Bulkhead → Bulkhead
free_slot b = record b { slots = b.slots - 1 }

abbrev pub exit : Bulkhead → Bulkhead
exit b = record b { in_flight = b.in_flight - 1 }

abbrev pub reject : Bulkhead → Bulkhead
reject b = record b { rejected = b.rejected + 1 }

abbrev pub saturated : Bulkhead → Error
saturated b = newf Code.overloaded "bulkhead %q saturated" (Arg.text b.name ∷ [])

abbrev pub wait_canceled : Error → Error
wait_canceled reason = wrap Code.overloaded "bulkhead wait canceled" reason

-- A call of `Do` with no other call in between, whose function returns `answer`.
unfoldable pub do_call : Option Error → Bulkhead → Option Error × Bulkhead
do_call answer b =
    if ltb b.slots b.capacity
    then (answer, exit (free_slot (enter (take_slot b))))
    else (some (saturated b), reject b)

-- The bulkhead with the calls that have a slot and are not counted yet, those whose function runs,
-- and those that gave their slot back and are still counted.
pub record World : Type 0 where
  pub bulkhead : Bulkhead
  pub admitted : ℕ
  pub running : ℕ
  pub leaving : ℕ

pub data Step : World → World → Type 0 where
  -- `Do` and `DoWait` get a slot.
  acquires :
      {w : World}
      → w.bulkhead.slots < w.bulkhead.capacity
      → Step w (record w { bulkhead = take_slot w.bulkhead; admitted = w.admitted + 1 })
  -- `Do` finds no room.
  sheds :
      {w : World}
      → w.bulkhead.capacity ≤ w.bulkhead.slots
      → Step w (record w { bulkhead = reject w.bulkhead })
  -- The context of `DoWait` ends.
  gives_up : {w : World} → Step w (record w { bulkhead = reject w.bulkhead })
  begins :
      {w : World}
      → 0 < w.admitted
      → Step w (record w {
        bulkhead = enter w.bulkhead;
        admitted = w.admitted - 1;
        running = w.running + 1;
      })
  returns :
      {w : World}
      → 0 < w.running
      → Step w (record w {
        bulkhead = free_slot w.bulkhead;
        running = w.running - 1;
        leaving = w.leaving + 1;
      })
  leaves :
      {w : World}
      → 0 < w.leaving
      → Step w (record w { bulkhead = exit w.bulkhead; leaving = w.leaving - 1 })

pub data Reach : World → World → Type 0 where
  done : {w : World} → Reach w w
  next : {u v w : World} → Step u v → Reach v w → Reach u w

-- A bulkhead that no call uses.
abbrev pub idle : Bulkhead → World
idle b = record { bulkhead = b; admitted = 0; running = 0; leaving = 0 }
