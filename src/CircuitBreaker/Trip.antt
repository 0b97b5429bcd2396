-- ===== src/CircuitBreaker/Trip.antt =====
-- circuitbreaker.go: calls one after another, and the steps of concurrent ones.
use golang_service_architect.Common.{
  All, ℕ, zero, suc, ◌+◌, ◌-◌, ◌<◌, ◌≤◌, ◌≡◌, refl, sym, ap, ◌∙◌, true, false, Option, none, some,
  List, [], ◌∷◌, map, subst, leb, arith, le→leb,
}
use golang_service_architect.Common.Int.{pos}
use golang_service_architect.Apperrors.{Error, Code, Arg, newf}
use golang_service_architect.CircuitBreaker.{
  State, Breaker, transition, observe, admit, record_success, record_failure, record_result, finish,
  do_call,
}

-- Calls one after another, with the time of each and what its function returns: what the callers
-- are answered, and the breaker behind the calls.
abbrev pub run_calls : List (ℕ × Option Error) → Breaker → List (Option Error) × Breaker
run_calls [] b = ([], b)
run_calls ((now, result) ∷ calls) b =
    let (answer, b₁) = do_call now result b in
    let (answers, b₂) = run_calls calls b₁ in (answer ∷ answers, b₂)

-- The state behind the calls alone.
abbrev after_calls : List (ℕ × Option Error) → Breaker → Breaker
after_calls calls b = (run_calls calls b).1

abbrev pub failing : ℕ → Error → ℕ → List (ℕ × Option Error)
failing now e zero = []
failing now e (suc n) = (now, some e) ∷ failing now e n

abbrev pub succeeding : ℕ → ℕ → List (ℕ × Option Error)
succeeding now zero = []
succeeding now (suc n) = (now, none) ∷ succeeding now n

abbrev pub closed_with : ℕ → Breaker → Breaker
closed_with failures b = record b { state = State.closed; failures = failures }

abbrev pub half_open_with : ℕ → Breaker → Breaker
half_open_with successes b = record b {
  state = State.half_open;
  successes = successes;
  probes = pos 0;
}

fails-below :
    (now : ℕ) (e : Error) (f : ℕ) (b : Breaker)
    → f + 1 < b.cfg.failure_threshold
    → (do_call now (some e) (closed_with f b)).1 ≡ closed_with (f + 1) b
unfolding do_call observe admit finish record_result record_failure
fails-below now e f b few =
    let not_yet : leb b.cfg.failure_threshold (f + 1) ≡ false = ground (arith, few) in
    rw not_yet refl

fails-at :
    (now : ℕ) (e : Error) (f : ℕ) (b : Breaker)
    → f + 1 ≡ b.cfg.failure_threshold
    → (do_call now (some e) (closed_with f b)).1
      ≡ record b { state = State.opened; failures = f + 1; opened_at = now }
unfolding do_call observe admit finish record_result record_failure transition
fails-at now e f b full =
    let reached : leb b.cfg.failure_threshold (f + 1) ≡ true = ground (arith, full) in
    rw reached refl

failing-stays :
    (now : ℕ) (e : Error) (n f : ℕ) (b : Breaker)
    → f + n < b.cfg.failure_threshold
    → after_calls (failing now e n) (closed_with f b) ≡ closed_with (f + n) b
failing-stays now e zero f b few =
    let same : f ≡ f + zero = omega arith in ap (λ k. closed_with k b) same
failing-stays now e (suc n) f b few =
    let same : f + 1 + n ≡ f + suc n = omega arith in
    ap (after_calls (failing now e n)) (fails-below now e f b (omega (arith, few)))
    ∙ failing-stays now e n (f + 1) b (omega (arith, few))
    ∙ ap (λ k. closed_with k b) same

failing-opens :
    (now : ℕ) (e : Error) (n f : ℕ) (b : Breaker)
    → f + suc n ≡ b.cfg.failure_threshold
    → after_calls (failing now e (suc n)) (closed_with f b)
      ≡ record b { state = State.opened; failures = b.cfg.failure_threshold; opened_at = now }
failing-opens now e zero f b full =
    let same : f + 1 ≡ b.cfg.failure_threshold = omega (arith, full) in
    fails-at now e f b same
    ∙ ap (λ k. record b { state = State.opened; failures = k; opened_at = now }) same
failing-opens now e (suc n) f b full =
    ap (after_calls (failing now e (suc n))) (fails-below now e f b (omega (arith, full)))
    ∙ failing-opens now e n (f + 1) b (omega (arith, full))

-- A closed breaker without failures stays closed through any number of failing calls below the
-- threshold, and counts them; the call that reaches the threshold opens it at its time.
run_calls-trips :
    (now : ℕ) (e : Error) (n : ℕ) (b : Breaker)
    → n + 1 ≡ b.cfg.failure_threshold
    → (after_calls (failing now e n) (closed_with 0 b) ≡ closed_with n b)
      × (after_calls (failing now e (n + 1)) (closed_with 0 b)
          ≡ record b { state = State.opened; failures = b.cfg.failure_threshold; opened_at = now })
run_calls-trips now e n b full =
    let one_more : n + 1 ≡ suc n = omega arith in
    let none_before : 0 + n ≡ n = omega arith in
    (
      failing-stays now e n 0 b (omega (arith, full)) ∙ ap (λ k. closed_with k b) none_before,
      ap (λ k. after_calls (failing now e k) (closed_with 0 b)) one_more
          ∙ failing-opens now e n 0 b (omega (arith, full)),
    )

-- A call before the cooldown is over.
abbrev pub IsEarly : Breaker → ℕ × Option Error → Type 0
IsEarly b (now, answer) = now - b.opened_at < b.cfg.cooldown

early-refused :
    (now : ℕ) (answer : Option Error) (b : Breaker)
    → b.state ≡ State.opened
    → now - b.opened_at < b.cfg.cooldown
    → do_call now answer b
      ≡ (some (newf Code.unavailable "circuit %q open" (Arg.text b.name ∷ [])), b)
unfolding do_call observe admit finish
early-refused now answer b opened early =
    let hot : leb b.cfg.cooldown (now - b.opened_at) ≡ false = ground (arith, early) in
    rw (opened, hot) refl

-- What a caller of an open breaker is answered.
abbrev pub open_refusal : Breaker → Option Error
open_refusal b = some (newf Code.unavailable "circuit %q open" (Arg.text b.name ∷ []))

early-calls :
    (calls : List (ℕ × Option Error)) (b : Breaker)
    → b.state ≡ State.opened
    → All (IsEarly b) calls
    → run_calls calls b ≡ (map (λ c. open_refusal b) calls, b)
early-calls [] b opened early = refl
early-calls ((now, answer) ∷ calls) b opened early =
    let refused = early-refused now answer b opened early.0 in
    ap (λ (s : Option Error × Breaker). (s.0 ∷ (run_calls calls s.1).0, (run_calls calls s.1).1))
      refused
    ∙ ap (λ (r : List (Option Error) × Breaker). (open_refusal b ∷ r.0, r.1))
        (early-calls calls b opened early.1)

-- The breaker behind so many successful probes in one half-open phase.
probe-below :
    (now s : ℕ) (b : Breaker)
    → s + 1 < b.cfg.half_open_probes
    → do_call now none (half_open_with s b) ≡ (none, half_open_with (s + 1) b)
unfolding do_call observe admit finish record_result record_success
probe-below now s b few =
    let room : leb 1 b.cfg.half_open_probes ≡ true = ground (arith, few) in
    let not_yet : leb b.cfg.half_open_probes (s + 1) ≡ false = ground (arith, few) in
    rw (room, not_yet) refl

-- The breaker that enough probes have closed.
abbrev recovered : ℕ → Breaker → Breaker
recovered s b = record b { state = State.closed; failures = 0; successes = s; probes = pos 0 }

probe-at :
    (now s : ℕ) (b : Breaker)
    → s + 1 ≡ b.cfg.half_open_probes
    → do_call now none (half_open_with s b) ≡ (none, recovered (s + 1) b)
unfolding do_call observe admit finish record_result record_success transition
probe-at now s b full =
    let room : leb 1 b.cfg.half_open_probes ≡ true = ground (arith, full) in
    let reached : leb b.cfg.half_open_probes (s + 1) ≡ true = ground (arith, full) in
    rw (room, reached) refl

-- The answers and the breaker behind a call, and behind the calls after it.
abbrev followed : List (ℕ × Option Error) → Option Error × Breaker → List (Option Error) × Breaker
followed calls s = (s.0 ∷ (run_calls calls s.1).0, (run_calls calls s.1).1)

abbrev pub nones : ℕ → List (Option Error)
nones zero = []
nones (suc n) = none ∷ nones n

probes-close :
    (now n s : ℕ) (b : Breaker)
    → s + suc n ≡ b.cfg.half_open_probes
    → run_calls (succeeding now (suc n)) (half_open_with s b)
      ≡ (nones (suc n), recovered b.cfg.half_open_probes b)
probes-close now zero s b full =
    let same : s + 1 ≡ b.cfg.half_open_probes = omega (arith, full) in
    ap (followed []) (probe-at now s b same) ∙ ap (λ k. (nones 1, recovered k b)) same
probes-close now (suc n) s b full =
    ap (followed (succeeding now (suc n))) (probe-below now s b (omega (arith, full)))
    ∙ ap (λ (r : List (Option Error) × Breaker). (none ∷ r.0, r.1))
        (probes-close now n (s + 1) b (omega (arith, full)))

-- A call to an open breaker that has cooled down is one to a half-open breaker.
cooled :
    (now : ℕ) (answer : Option Error) (b : Breaker)
    → b.state ≡ State.opened
    → b.cfg.cooldown ≤ now - b.opened_at
    → do_call now answer b ≡ do_call now answer (half_open_with 0 b)
unfolding do_call observe transition
cooled now answer b opened cool =
    let cold : leb b.cfg.cooldown (now - b.opened_at) ≡ true = le→leb _ _ cool in
    rw (opened, cold) refl

-- Each call to an open breaker before its cooldown is over is answered with the error of an open
-- circuit, whatever its function would return, and leaves the breaker as it is. Behind them, as many
-- calls with a successful function as it asks for probes, at a time when it has cooled down, are all
-- let through and answered without an error, and close it with no failures counted.
pub run_calls-recovers :
    (calls : List (ℕ × Option Error)) (now n : ℕ) (b : Breaker)
    → b.state ≡ State.opened
    → All (IsEarly b) calls
    → b.cfg.cooldown ≤ now - b.opened_at
    → n + 1 ≡ b.cfg.half_open_probes
    → (run_calls calls b ≡ (map (λ c. open_refusal b) calls, b))
      × (run_calls (succeeding now (n + 1)) (run_calls calls b).1 ≡ (
        nones (n + 1),
        record b {
          state = State.closed;
          failures = 0;
          successes = b.cfg.half_open_probes;
          probes = pos 0;
        },
      ))
run_calls-recovers calls now n b opened early cool full =
    let one_more : suc n ≡ n + 1 = omega arith in
    let refused = early-calls calls b opened early in
    let closes =
      ap (followed (succeeding now n)) (cooled now none b opened cool)
      ∙ probes-close now n 0 b (omega (arith, full)) in
    (
      refused,
      ap (λ (r : List (Option Error) × Breaker). run_calls (succeeding now (n + 1)) r.1) refused
          ∙ subst
              (λ (k : ℕ).
                run_calls (succeeding now k) b ≡ (nones k, recovered b.cfg.half_open_probes b))
              one_more closes,
    )

half_open-reopens :
    (now : ℕ) (e : Error) (b : Breaker)
    → 0 < b.cfg.half_open_probes
    → do_call now (some e) (half_open_with 0 b)
      ≡ (some e, record b { state = State.opened; opened_at = now; successes = 0; probes = pos 0 })
unfolding do_call observe admit finish record_result record_failure transition
half_open-reopens now e b admits =
    let room : leb 1 b.cfg.half_open_probes ≡ true = ground (arith, admits) in rw room refl

-- A failing call to an open breaker that has cooled down is let through, and opens the breaker
-- again at its time, if it admits probes at all.
pub do_call-reopens :
    (now : ℕ) (e : Error) (b : Breaker)
    → b.state ≡ State.opened
    → b.cfg.cooldown ≤ now - b.opened_at
    → 0 < b.cfg.half_open_probes
    → do_call now (some e) b ≡ (some e, record b { opened_at = now; successes = 0; probes = pos 0 })
do_call-reopens now e b opened cool admits =
    cooled now (some e) b opened cool
    ∙ half_open-reopens now e b admits
    ∙ ap (λ s. (some e, record b { state = s; opened_at = now; successes = 0; probes = pos 0 }))
        (sym opened)
