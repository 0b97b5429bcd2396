-- ===== src/CircuitBreaker/Tests.antt =====
-- The breaker at a small configuration.
use golang_service_architect.Common.{◌≡◌, refl, none, some, [], ◌∷◌, arith}
use golang_service_architect.Common.Int.{pos}
use golang_service_architect.Apperrors.{Error, Code, new}
use golang_service_architect.CircuitBreaker.{
  State, Breaker, Admission, transition, observe, admit, leave, record_success, record_failure,
}
use golang_service_architect.CircuitBreaker.Trip.{
  run_calls, succeeding, open_refusal, run_calls-recovers,
}

abbrev fresh : Breaker
fresh = record {
  name = "broker";
  cfg = record { failure_threshold = 3; cooldown = 5; half_open_probes = 2 };
  state = State.closed;
  failures = 0;
  successes = 0;
  probes = pos 0;
  opened_at = 0;
}

abbrev down : Error
down = new Code.unavailable "down"

abbrev tripped : Breaker
tripped = record fresh { state = State.opened; failures = 3; opened_at = 1 }

run_calls-recovers_example :
    (run_calls ((2, none) ∷ (3, some down) ∷ []) tripped
      ≡ (open_refusal tripped ∷ open_refusal tripped ∷ [], tripped))
    × (run_calls (succeeding 9 2) (run_calls ((2, none) ∷ (3, some down) ∷ []) tripped).1 ≡ (
      none ∷ none ∷ [],
      record tripped { state = State.closed; failures = 0; successes = 2; probes = pos 0 },
    ))
run_calls-recovers_example =
    run_calls-recovers ((2, none) ∷ (3, some down) ∷ []) 9 1 tripped refl
      (omega arith, (omega arith, tt)) (omega arith) (omega arith)

-- Two probes run, one fails and leaves, and the breaker opens; cooled down again it admits two
-- more, and when the first phase's second probe leaves, a third beside them.
abbrev two_probes : Breaker
two_probes = (admit State.half_open (admit State.half_open (observe 10 tripped).1).1).1

abbrev reopened : Breaker
reopened = leave Admission.probe (record_failure 11 two_probes)

abbrev two_more : Breaker
two_more = (admit State.half_open (admit State.half_open (observe 20 reopened).1).1).1

third_probe :
    (admit State.half_open (leave Admission.probe (record_success 21 two_more))).0 ≡ Admission.probe
unfolding observe admit record_success record_failure transition
third_probe = refl
