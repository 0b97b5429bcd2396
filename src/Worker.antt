-- ===== src/Worker.antt =====
-- backend/internal/usecase/worker/worker.go: the computation of one operation. A duration is a
-- number of nanoseconds, with 0 for every one that is not positive.
use golang_service_architect.Common.{ℕ, Bool, ◌&&◌, [], Result, ok, err, ltb, if◌then◌else◌}
use golang_service_architect.Apperrors.{Error, Code, new, newf, wrap}
use golang_service_architect.Float64.{Float64}
use golang_service_architect.Expression.Ast.{Op}

pub record Latencies : Type 0 where
  pub add : ℕ
  pub sub : ℕ
  pub mul : ℕ
  pub div : ℕ

-- `For`
unfoldable pub latency_for : Latencies → Op → ℕ
latency_for l Op.add = l.add
latency_for l Op.sub = l.sub
latency_for l Op.mul = l.mul
latency_for l Op.div = l.div
latency_for l _ = 0

abbrev pub division_by_zero : Error
division_by_zero = new Code.division_by_zero "division by zero"

abbrev pub unknown_operation : Op → Error
unknown_operation op = newf Code.invalid_input "unknown operation %q" []

module _ (fl : Float64) where
  open fl use {F}

  -- The second `switch` of `Compute`.
  unfoldable pub apply : Op → F → F → Result Error F
  apply Op.add a b = ok (fl.plus a b)
  apply Op.sub a b = ok (fl.minus a b)
  apply Op.mul a b = ok (fl.times a b)
  apply Op.div a b = if fl.is_nought b then err division_by_zero else ok (fl.over a b)
  apply op a b = err (unknown_operation op)

  -- `Compute`; `canceled` says that the context ended with the error `cause` before the delay was
  -- over.
  unfoldable pub compute : Latencies → Bool → Error → Op → F → F → Result Error F
  unfolding latency_for apply
  compute lat canceled cause op a b =
      if ltb 0 (latency_for lat op) && canceled
      then err (wrap Code.unavailable "compute canceled" cause)
      else apply op a b
