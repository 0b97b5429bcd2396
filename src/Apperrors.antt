-- ===== src/Apperrors.antt =====
-- backend/pkg/apperrors/apperrors.go: the typed errors and their classification.
use golang_service_architect.Common.{ℕ, String, Bool, true, false, List, []}

-- The stable error classes.
pub data Code : Type 0 where
  invalid_input not_found conflict unavailable rate_limited overloaded : Code
  division_by_zero internal : Code

-- An argument of a format string; rendering is left to `fmt`.
pub data Arg : Type 0 where
  number : ℕ → Arg
  text : String → Arg
  bytes : List ℕ → Arg

-- A Go `error`. `typed` is an `*Error` with no cause and `caused` one with a cause; `plain` is an
-- error of another type, and `annotated` one that wraps an error by `fmt.Errorf` and `%w`.
pub data Error : Type 0 where
  typed : Code → String → List Arg → Error
  caused : Code → String → Error → Error
  plain : String → Error
  annotated : String → Error → Error

abbrev pub new : Code → String → Error
new code msg = typed code msg []

abbrev pub newf : Code → String → List Arg → Error
newf code format args = typed code format args

abbrev pub wrap : Code → String → Error → Error
wrap code msg cause = caused code msg cause

-- `errors.As` takes the first `*Error` of the chain, outermost first.
unfoldable pub code_of : Error → Code
code_of (typed code _ _) = code
code_of (caused code _ _) = code
code_of (plain _) = Code.internal
code_of (annotated _ e) = code_of e

abbrev pub is_transient : Code → Bool
is_transient Code.unavailable = true
is_transient Code.rate_limited = true
is_transient Code.overloaded = true
is_transient _ = false

unfoldable pub is_retryable : Error → Bool
unfolding code_of
is_retryable e = is_transient (code_of e)

abbrev pub err_not_found : Error
err_not_found = new Code.not_found "not found"
