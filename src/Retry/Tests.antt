-- ===== src/Retry/Tests.antt =====
-- The retries at concrete configurations.
use native.Mathlib.Nat.{pow-le-pow_right}
use golang_service_architect.Common.Int.{pos, leb_ℤ, is_positive_ℤ}
use golang_service_architect.Common.{
  ◌≤◌, ℕ, ◌^◌, ◌-◌, ◌≡◌, refl, true, Option, none, some, inl, arith, if◌then◌else◌, ltb,
}
use golang_service_architect.Apperrors.{Error, Code, new, is_retryable, code_of}
use golang_service_architect.Retry.{
  Config, loop, wait, shift, defaults, backoff, do_retry, returned, panicked,
}
use golang_service_architect.Retry.Attempts.{numbered, do_retry-stops, do_retry-panics}
use golang_service_architect.Retry.Schedule.{backoff_lem}

-- The configuration of the publisher.
abbrev publisher : Config
publisher = record { attempts = 3; base = 0; cap = 0 }

abbrev busy : Error
busy = new Code.overloaded "broker busy"

-- The first call fails, later ones succeed.
abbrev recovers : ℕ → Option Error
recovers n = if ltb n 1 then some busy else none

abbrev calm : ℕ → Option Error
calm n = none

busy_transient : is_retryable busy ≡ true
unfolding is_retryable code_of
busy_transient = refl

do_retry-stops_example : do_retry (numbered recovers) calm publisher 0 ≡ (returned none, 2)
unfolding defaults
do_retry-stops_example =
    do_retry-stops publisher recovers calm 1 (omega arith)
      (λ j h.
        let first : j ≡ 0 = omega (arith, h) in
        rw first ((busy, refl, busy_transient), (omega arith, omega arith), refl))
      (inl (inl refl))

-- A caller that asks for 40 attempts, with the default delays.
abbrev patient : Config
patient = record { attempts = 40; base = 0; cap = 0 }

abbrev fails : ℕ → Option Error
fails n = some busy

do_retry-panics_example : do_retry (numbered fails) calm patient 0 ≡ (panicked, 38)
unfolding defaults
do_retry-panics_example =
    do_retry-panics patient fails calm 37 (omega arith)
      (λ j h.
        let grows : 2 ^ j ≤ 2 ^ 36 = pow-le-pow_right (omega arith) {j = 36} (omega (arith, h)) in
        ((busy, refl, busy_transient), (omega (arith, grows), omega arith), refl))
      (busy, refl, busy_transient) (inl (omega arith, omega arith))

backoff_lem_example :
    (is_positive_ℤ (backoff patient 60) ≡ true)
    × (leb_ℤ (backoff patient 60) (pos (defaults patient).cap) ≡ true)
backoff_lem_example = backoff_lem patient 60

-- The largest delays that a caller can ask for: the first one is out of range.
abbrev endless : Config
endless = record { attempts = 3; base = 2 ^ 63 - 1; cap = 2 ^ 63 - 1 }

endless_panics : do_retry (numbered recovers) calm endless 0 ≡ (panicked, 1)
unfolding defaults do_retry loop wait shift is_retryable code_of
endless_panics = refl
