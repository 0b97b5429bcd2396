-- ===== src/Float64.antt =====
-- Go's `float64` as an interface: the type, the four operations, the tests against zero and for
-- a finite value, which alone JSON can hold, and `strconv.ParseFloat` on a run of digits and points. No law of it is assumed.
use golang_service_architect.Common.{ℕ, Bool, List, Option}

pub record Float64 : Type 1 where
  pub F : Type 0
  pub nought : F
  pub plus : F → F → F
  pub minus : F → F → F
  pub times : F → F → F
  pub over : F → F → F
  pub is_nought : F → Bool
  pub is_finite : F → Bool
  pub parse_float : List ℕ → Option F
