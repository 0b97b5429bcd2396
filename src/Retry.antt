-- ===== src/Retry.antt =====
-- backend/pkg/retry/retry.go. A duration is an int64 of nanoseconds, with its wrap-around.
pub mod Schedule
pub mod Attempts
pub mod Answers
mod Tests
use golang_service_architect.Common.{
  ℕ, zero, suc, ◌+◌, ◌-◌, ◌*◌, ◌%◌, ◌^◌, Bool, true, false, not, ◌||◌, Option, none, some, ltb, leb,
  ◌==◌, if◌then◌else◌,
}
use golang_service_architect.Common.Int.{ℤ, pos, negsuc, min_ℤ, is_positive_ℤ, leb_ℤ}
use golang_service_architect.Apperrors.{Error, Code, wrap, is_retryable}

-- The fields that the caller sets; what is not positive stands for its default.
pub record Config : Type 0 where
  pub attempts : ℕ
  pub base : ℕ
  pub cap : ℕ

abbrev pub millisecond : ℕ
millisecond = 1000000

-- `defaults`
abbrev pub or_else : ℕ → ℕ → ℕ
or_else zero other = other
or_else (suc n) other = suc n

unfoldable pub defaults : Config → Config
defaults c = record {
  attempts = or_else c.attempts 3;
  base = or_else c.base (100 * millisecond);
  cap = or_else c.cap (5000 * millisecond);
}

-- The int64 that 64 bits are.
abbrev pub int64 : ℕ → ℤ
int64 w = if ltb w (2 ^ 63) then pos w else negsuc (2 ^ 64 - 1 - w)

-- `base << attempt`
unfoldable pub shift : ℕ → ℕ → ℤ
shift base attempt = int64 (base * 2 ^ attempt % 2 ^ 64)

-- `Backoff`
unfoldable pub backoff : Config → ℕ → ℤ
unfolding defaults shift
backoff cfg attempt =
    let c = defaults cfg in
    let ceiling = shift c.base attempt in
    if not (leb_ℤ ceiling (pos c.cap)) || not (is_positive_ℤ ceiling) then pos c.cap else ceiling

-- `Do` returns an error or nil, or `rand.Int64N` panics on a bound that is not positive.
pub data Outcome : Type 0 where
  returned : Option Error → Outcome
  panicked : Outcome

-- `int64(ceiling)+1 > 0`: the sum of the largest int64 wraps around.
abbrev pub is_drawable : ℤ → Bool
is_drawable (pos n) = ltb (n + 1) (2 ^ 63)
is_drawable (negsuc n) = false

module _ {W : Type 0} (run : W → Option Error × W) (ended : ℕ → Option Error) where
  -- The wait behind a failed attempt: `ended` says what ended the context in it, if anything did.
  unfoldable pub wait : ℤ → ℕ → W → Outcome × W → Outcome × W
  wait ceiling attempt w rest =
      if is_drawable ceiling
      then elim (ended attempt) [
        | some reason ↦ (returned (some (wrap Code.unavailable "retry canceled" reason)), w)
        | none ↦ rest
      ]
      else (panicked, w)

  -- The loop of `Do` with the tries that are left, and the error of the last one.
  unfoldable pub loop : Config → ℕ → ℕ → Option Error → W → Outcome × W
  unfolding shift wait
  loop c zero attempt last w = (returned last, w)
  loop c (suc left) attempt last w =
      let (result, w') = run w in
      let rest = loop c left (attempt + 1) result w' in
      elim result [
        | none ↦ (returned none, w')
        | some e ↦
            if not (is_retryable e)
            then (returned (some e), w')
            else if attempt == c.attempts - 1
            then (returned (some e), w')
            else wait (min_ℤ (shift c.base attempt) (pos c.cap)) attempt w' rest
      ]

  -- `Do`
  unfoldable pub do_retry : Config → W → Outcome × W
  unfolding loop defaults
  do_retry cfg w = let c = defaults cfg in loop c c.attempts 0 none w
