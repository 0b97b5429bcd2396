-- ===== src/CircuitBreaker.antt =====
-- backend/pkg/circuitbreaker/circuitbreaker.go. The atomic counters are int32; `defaults` bounds
-- the thresholds, far below their range. A call of `Do` is three steps, between which those of
-- other calls may run: it is admitted, its result is recorded, and a probe leaves.
pub mod Trip
mod Tests
use golang_service_architect.Common.{
  ℕ, zero, suc, ◌+◌, ◌-◌, ◌^◌, Bool, true, false, Option, none, some, List, [], ◌∷◌, ltb, leb,
  if◌then◌else◌, String, Result, ok, err,
}
use golang_service_architect.Common.Int.{ℤ, pos, negsuc, pred_ℤ, suc_ℤ, leb_ℤ}
use golang_service_architect.Apperrors.{Error, Code, Arg, newf}

pub data State : Type 0 where
  closed opened half_open : State

pub record Config : Type 0 where
  pub failure_threshold : ℕ
  pub cooldown : ℕ
  pub half_open_probes : ℕ

abbrev pub max_threshold : ℕ
max_threshold = 2 ^ 20

-- The two tests of `defaults` on a threshold.
abbrev pub clamp_threshold : ℕ → ℕ → ℕ
clamp_threshold zero other = other
clamp_threshold (suc n) other = if ltb max_threshold (suc n) then max_threshold else suc n

abbrev pub default_cooldown : ℕ → ℕ
default_cooldown zero = 5000000000
default_cooldown (suc n) = suc n

unfoldable pub defaults : Config → Config
defaults c = record {
  failure_threshold = clamp_threshold c.failure_threshold 5;
  cooldown = default_cooldown c.cooldown;
  half_open_probes = clamp_threshold c.half_open_probes 2;
}

pub record Breaker : Type 0 where
  pub name : String
  pub cfg : Config
  pub state : State
  pub failures : ℕ
  pub successes : ℕ
  pub probes : ℤ
  pub opened_at : ℕ

-- `New`
unfoldable pub new_breaker : String → Config → Breaker
unfolding defaults
new_breaker name cfg = record {
  name = name;
  cfg = defaults cfg;
  state = State.closed;
  failures = 0;
  successes = 0;
  probes = pos 0;
  opened_at = 0;
}

abbrev pub is_state : State → State → Bool
is_state State.closed State.closed = true
is_state State.opened State.opened = true
is_state State.half_open State.half_open = true
is_state _ _ = false

-- The counters that the new state starts with.
abbrev pub entered : ℕ → State → Breaker → Breaker
entered now State.opened b = record b { state = State.opened; opened_at = now }
entered now State.half_open b = record b { state = State.half_open; successes = 0; probes = pos 0 }
entered now State.closed b = record b { state = State.closed; failures = 0 }

-- `transition`, under the mutex; it does nothing if the state is no longer `from`.
unfoldable pub transition : ℕ → State → State → Breaker → Breaker
transition now from to b = if is_state b.state from then entered now to b else b

-- `State`: an open breaker that has cooled down becomes half-open. `now` is the time.
unfoldable pub observe : ℕ → Breaker → State × Breaker
unfolding transition
observe now b = elim b.state [
  | State.closed ↦ (State.closed, b)
  | State.half_open ↦ (State.half_open, b)
  | State.opened ↦
      if leb b.cfg.cooldown (now - b.opened_at)
      then (State.half_open, transition now State.opened State.half_open b)
      else (State.opened, b)
]

-- What `Do` does with a call before it runs the function.
pub data Admission : Type 0 where
  call : Admission
  probe : Admission
  refuse : Error → Admission

-- The switch of `Do` on the state that it observed.
unfoldable pub admit : State → Breaker → Admission × Breaker
admit State.closed b = (Admission.call, b)
admit State.opened b =
    (Admission.refuse (newf Code.unavailable "circuit %q open" (Arg.text b.name ∷ [])), b)
admit State.half_open b =
    if leb_ℤ (suc_ℤ b.probes) (pos b.cfg.half_open_probes)
    then (Admission.probe, record b { probes = suc_ℤ b.probes })
    else (
      Admission.refuse (newf Code.unavailable "circuit %q probing" (Arg.text b.name ∷ [])),
      record b { probes = pred_ℤ (suc_ℤ b.probes) },
    )

-- The deferred `probes.Add(-1)`.
abbrev pub leave : Admission → Breaker → Breaker
leave Admission.probe b = record b { probes = pred_ℤ b.probes }
leave _ b = b

-- `record`: a success, and a failure.
unfoldable pub record_success : ℕ → Breaker → Breaker
unfolding transition
record_success now b = elim b.state [
  | State.half_open ↦
      let b' = record b { successes = b.successes + 1 } in
      if leb b.cfg.half_open_probes b'.successes
      then transition now State.half_open State.closed b'
      else b'
  | _ ↦ record b { failures = 0 }
]

unfoldable pub record_failure : ℕ → Breaker → Breaker
unfolding transition
record_failure now b = elim b.state [
  | State.half_open ↦ transition now State.half_open State.opened b
  | State.closed ↦
      let b' = record b { failures = b.failures + 1 } in
      if leb b.cfg.failure_threshold b'.failures
      then transition now State.closed State.opened b'
      else b'
  | State.opened ↦ b
]

unfoldable pub record_result : ℕ → Option Error → Breaker → Breaker
unfolding record_success record_failure
record_result now none b = record_success now b
record_result now (some e) b = record_failure now b

-- Behind the admission: the function returned `answer` at the time `now`.
unfoldable pub finish : ℕ → Option Error → Admission → Breaker → Option Error × Breaker
unfolding record_result
finish now answer (Admission.refuse e) b = (some e, b)
finish now answer admission b = (answer, leave admission (record_result now answer b))

-- A call of `Do` with no other call in between, at one time.
unfoldable pub do_call : ℕ → Option Error → Breaker → Option Error × Breaker
unfolding observe admit finish
do_call now answer b =
    let (s, b₁) = observe now b in
    let (admission, b₂) = admit s b₁ in finish now answer admission b₂
