-- ===== src/Validator/Tests.antt =====
-- The validation at concrete texts.
use golang_service_architect.Common.{◌≡◌, refl, none}
use golang_service_architect.Text.{codes, trim_space, encode}
use golang_service_architect.Validator.{
  validate_expression, check, check_operator, check_all, finish,
}
use golang_service_architect.Validator.Scan.{IsPlausible, validate_expression-IsPlausible}

accepts : validate_expression (codes " 2*(3 + -4)") ≡ none
unfolding validate_expression check_all check check_operator finish trim_space encode
accepts = refl

-- A text that the grammar does not have, with its operator behind the operands.
accepts_postfix : validate_expression (codes "(1 2 +)") ≡ none
unfolding validate_expression check_all check check_operator finish trim_space encode
accepts_postfix = refl

validate_expression-IsPlausible_example : IsPlausible (trim_space (codes " 2*(3 + -4)"))
validate_expression-IsPlausible_example =
    validate_expression-IsPlausible (codes " 2*(3 + -4)") accepts
