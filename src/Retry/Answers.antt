-- ===== src/Retry/Answers.antt =====
-- retry.go, Do: what holds of every call's answer holds of the answer of `Do`.
use mathlib.Core.Bool.{true≢false}
use golang_service_architect.Common.{
  sym, ℕ, zero, suc, ◌+◌, ◌-◌, ◌<◌, ◌≡◌, refl, ◌∙◌, true, false, Option, none, some, Option-cases,
  ◌⊎◌, inl, inr, ◌==◌, ==_iff, Bool-cases, arith,
}
use golang_service_architect.Common.Int.{pos, min_ℤ}
use golang_service_architect.Apperrors.{Error, Code, code_of, is_retryable}
use golang_service_architect.Retry.{Config, shift, Outcome, returned, is_drawable, wait, loop}

-- An answer that may be relied on: no error, and `Holds` of the state behind it; or an error of the
-- class `unavailable`.
abbrev pub IsReliable : {W : Type 0} → (W → Type 0) → Option Error → W → Type 0
IsReliable Holds e w =
    ((e ≡ none) × Holds w) ⊎ ((f : Error) × (e ≡ some f) × (code_of f ≡ Code.unavailable))

unavailable_retryable : (e : Error) → code_of e ≡ Code.unavailable → is_retryable e ≡ true
unfolding is_retryable
unavailable_retryable e h = rw h refl

module _ {W : Type 0} (Holds : W → Type 0) (run : W → Option Error × W) (ended : ℕ → Option Error)
    (answers : (w : W) → IsReliable Holds (run w).0 (run w).1) (c : Config)
    (draws : (j : ℕ)
      → j + 1 < c.attempts
      → is_drawable (min_ℤ (shift c.base j) (pos c.cap)) ≡ true) where
  abbrev Answered : Outcome × W → Type 0
  Answered o = (e : Option Error) × (o.0 ≡ returned e) × IsReliable Holds e o.1

  loop-step :
      (left a : ℕ) (last : Option Error) (w : W)
      → a + suc left ≡ c.attempts
      → ((now : Option Error) (w' : W)
          → a + 1 < c.attempts
          → Answered (loop run ended c left (a + 1) now w'))
      → Answered (loop run ended c (suc left) a last w)
  unfolding loop wait code_of
  loop-step left a last w count onward = elim (answers w) [
    | inl (fine, holds) ↦ rw (loop, fine) (none, refl, inl (refl, holds))
    | inr (e, failed, code) ↦
        let transient = unavailable_retryable e code in
        elim (Bool-cases (a == c.attempts - 1)) [
          | inl final ↦ rw (loop, failed, transient, final) (some e, refl, inr (e, refl, code))
          | inr more ↦
              let further : a + 1 < c.attempts = not_last left count more in
              let drawn = draws a further in
              elim (Option-cases (ended a)) [
                | inr (reason, over) ↦
                    rw (loop, failed, transient, more, drawn, over)
                      (some _, refl, inr (_, refl, refl))
                | inl runs ↦
                    rw (loop, failed, transient, more, drawn, runs)
                      (onward (run w).0 (run w).1 further)
              ]
        ]
  ]
    where
      not_last :
          (left : ℕ)
          → a + suc left ≡ c.attempts
          → (a == c.attempts - 1) ≡ false
          → a + 1 < c.attempts
      not_last zero count more =
          let last_one = (==_iff a (c.attempts - 1)).1 (omega (arith, count)) in
          absurd (true≢false (sym last_one ∙ more))
      not_last (suc left) count more = omega (arith, count)

  loop-answers :
      (left a : ℕ) (last : Option Error) (w : W)
      → a + suc left ≡ c.attempts
      → Answered (loop run ended c (suc left) a last w)
  loop-answers zero a last w count =
      loop-step zero a last w count (λ now w' h. absurd (omega (arith, count, h)))
  loop-answers (suc left) a last w count =
      loop-step (suc left) a last w count
        (λ now w' h. loop-answers left (a + 1) now w' (omega (arith, count)))

  -- With at least one attempt, and where no delay is out of the range of the jitter, `Do` returns,
  -- and its answer may be relied on if every call's may.
  pub loop_whole : (w : W) → 0 < c.attempts → Answered (loop run ended c c.attempts 0 none w)
  loop_whole w some_left = whole c.attempts refl some_left
    where
      whole : (n : ℕ) → n ≡ c.attempts → 0 < n → Answered (loop run ended c n 0 none w)
      whole zero h k = absurd (omega (arith, k))
      whole (suc n) h k = loop-answers n 0 none w (omega (arith, h))

-- What each call keeps, `Do` keeps.
pub loop-keeps :
    {W : Type 0} (Holds : W → Type 0) (run : W → Option Error × W) (ended : ℕ → Option Error)
    → ((w : W) → Holds w → Holds (run w).1)
    → (c : Config) (left a : ℕ) (last : Option Error) (w : W) → Holds w
    → Holds (loop run ended c left a last w).1
unfolding loop wait
loop-keeps Holds run ended keeps c zero a last w h = h
loop-keeps Holds run ended keeps c (suc left) a last w h =
    let next = keeps w h in
    let rest = loop-keeps Holds run ended keeps c left (a + 1) (run w).0 (run w).1 next in
    elim (Option-cases (run w).0) [
      | inl fine ↦ rw (loop, fine) next
      | inr (e, failed) ↦ elim (Bool-cases (is_retryable e)) [
        | inr permanent ↦ rw (loop, failed, permanent) next
        | inl transient ↦ elim (Bool-cases (a == c.attempts - 1)) [
          | inl final ↦ rw (loop, failed, transient, final) next
          | inr more ↦ elim (Bool-cases (is_drawable (min_ℤ (shift c.base a) (pos c.cap)))) [
            | inr panics ↦ rw (loop, failed, transient, more, panics) next
            | inl draws ↦ elim (Option-cases (ended a)) [
              | inr (reason, over) ↦ rw (loop, failed, transient, more, draws, over) next
              | inl runs ↦ rw (loop, failed, transient, more, draws, runs) rest
            ]
          ]
        ]
      ]
    ]
