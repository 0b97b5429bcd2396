-- ===== src/Validator.antt =====
-- backend/pkg/validator/validator.go: the cheap checks before the parser.
pub mod Scan
mod Tests
use Prim.Native.Nat.{max}
use golang_service_architect.Common.{
  ℕ, zero, suc, ◌+◌, ◌-◌, ◌^◌, Bool, true, false, not, ◌&&◌, ◌||◌, Option, none, some, List, [],
  ◌∷◌, length, Result, ok, err, ◌>>=◌, ltb, leb, ◌==◌, if◌then◌else◌,
}
use golang_service_architect.Apperrors.{Error, Code, Arg, new, newf}
use golang_service_architect.Text.{Text, encode, trim_space}

abbrev pub max_expression_length : ℕ
max_expression_length = 512

abbrev pub max_paren_depth : ℕ
max_paren_depth = 64

-- `exprScan`. Its depth is never negative: `check` returns where it would become so.
pub record ExprScan : Type 0 where
  pub depth : ℕ
  pub max_depth : ℕ
  pub prev : ℕ
  pub digits : Bool

abbrev pub expr_scan : ExprScan
expr_scan = record { depth = 0; max_depth = 0; prev = 0; digits = false }

abbrev pub is_digit : ℕ → Bool
is_digit r = (leb b'0' r && leb r b'9') || r == b'.'

abbrev pub is_operator : ℕ → Bool
is_operator r = r == b'+' || r == b'-' || r == b'*' || r == b'/'

abbrev pub is_blank : ℕ → Bool
is_blank r = r == b' ' || r == b'\t'

-- `checkOperator`
unfoldable pub check_operator : ℕ → ExprScan → Result Error ExprScan
check_operator r s =
    if (s.prev == b'+' || s.prev == b'*' || s.prev == b'/') && not (r == b'-')
    then err (
        newf Code.invalid_input "operator %q cannot follow %q"
          (Arg.number r ∷ Arg.number s.prev ∷ []))
    else ok (record s { prev = r })

-- `check`
unfoldable pub check : ℕ → ExprScan → Result Error ExprScan
unfolding check_operator
check r s =
    if is_digit r
    then ok (record s { digits = true; prev = r })
    else if r == b'('
    then ok (record s { depth = s.depth + 1; max_depth = max s.max_depth (s.depth + 1); prev = r })
    else if r == b')'
    then (if s.depth == 0
        then err (new Code.invalid_input "unbalanced parentheses")
        else ok (record s { depth = s.depth - 1; prev = r }))
    else if is_operator r
    then check_operator r s
    else if is_blank r
    then ok s
    else err (newf Code.invalid_input "illegal character %q" (Arg.number r ∷ []))

-- `finish`
unfoldable pub finish : ExprScan → Option Error
finish s =
    if not (s.depth == 0)
    then some (new Code.invalid_input "unbalanced parentheses")
    else if ltb max_paren_depth s.max_depth
    then some (newf Code.invalid_input "nesting deeper than %d" (Arg.number max_paren_depth ∷ []))
    else if not s.digits
    then some (new Code.invalid_input "expression contains no numbers")
    else if is_operator s.prev
    then some (new Code.invalid_input "expression ends with an operator")
    else none

-- The loop over the runes.
unfoldable pub check_all : Text → ExprScan → Result Error ExprScan
unfolding check
check_all [] s = ok s
check_all (r ∷ rs) s = check r s >>= check_all rs

abbrev pub finished : Result Error ExprScan → Option Error
finished (err e) = some e
finished (ok s) = finish s

-- `ValidateExpression`
unfoldable pub validate_expression : Text → Option Error
unfolding check_all finish
validate_expression raw =
    let trimmed = trim_space raw in
    if length trimmed == 0
    then some (new Code.invalid_input "expression is empty")
    else if ltb max_expression_length (length (encode trimmed))
    then some (
        newf Code.invalid_input "expression exceeds %d characters"
          (Arg.number max_expression_length ∷ []))
    else finished (check_all trimmed expr_scan)
