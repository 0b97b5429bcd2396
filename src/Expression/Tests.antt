-- ===== src/Expression/Tests.antt =====
-- The expression pipeline at concrete inputs, over natural numbers in place of floats.
use golang_service_architect.Common.{
  ℕ, ◌<◌, ◌+◌, ◌≡◌, refl, ◌⊎◌, none, some, List, [], ◌∷◌, All, ok, err, ◌>>=◌, arith,
}
use golang_service_architect.Samples.{naturals, read_digits}
use golang_service_architect.Text.{Text, codes, encode, trim_space}
use golang_service_architect.Worker.{apply}
use golang_service_architect.Expression.Ast.{
  Op, Node, leaf, bin, should_pop, Token, number, op, lparen, rparen, op_nodes,
}
use golang_service_architect.Expression.Builder
use golang_service_architect.Expression.Builder.Grammar.{
  Derives, literal, paren, negate, from_factor, scale, from_term, shift, Level, add_sum, mul_term,
  build-Derives,
}
use golang_service_architect.Expression.Builder.Tokens.{
  tally, is_op, is_number, is_minus, build-counts,
}
use golang_service_architect.Expression.Builder.Postfix.{build-postfix}
use golang_service_architect.Expression.Scanner.{tokenize, parse}
use golang_service_architect.Expression.Scanner.Render.{HasText, IsWritten, render}
use golang_service_architect.Expression.Scanner.RoundTrip.{parse-render}
use golang_service_architect.Expression.Evaluation.{eval, outcome}
use golang_service_architect.Expression.Task.{Task}
use golang_service_architect.Expression.Planner.{max_tasks_per_expr, too_many, plan}
use golang_service_architect.Expression.Planner.Execution.{plan-outcome}
use golang_service_architect.Expression.Planner.Graph.{IsPlan, plan-IsPlan}

-- One digit is enough for the texts below.
abbrev show_digit : ℕ → Text
show_digit n = (b'0' + n) ∷ []

abbrev count_up : ℕ → ℕ
count_up n = n + 1

count_up_fresh : (i j : ℕ) → count_up i ≡ count_up j → i ≡ j
count_up_fresh i j h = omega arith

-- 2 + 3 * (4 + -1)
abbrev sample_tokens : List (Token ℕ)
sample_tokens =
    number 2
    ∷ op Op.add
    ∷ number 3
    ∷ op Op.mul
    ∷ lparen
    ∷ number 4
    ∷ op Op.add
    ∷ op Op.neg
    ∷ number 1
    ∷ rparen
    ∷ []

abbrev inner : Node ℕ
inner = bin Op.add (leaf 4) (bin Op.sub (leaf 0) (leaf 1))

abbrev sample : Node ℕ
sample = bin Op.add (leaf 2) (bin Op.mul (leaf 3) inner)

inner-Derives : Derives 0 Level.sum (number 4 ∷ op Op.add ∷ op Op.neg ∷ number 1 ∷ []) inner
inner-Derives =
    shift (from_term (from_factor (literal 4))) add_sum (from_factor (negate (literal 1)))

sample-Derives : Derives 0 Level.sum sample_tokens sample
sample-Derives =
    shift (from_term (from_factor (literal 2))) add_sum
      (scale (from_factor (literal 3)) mul_term (paren inner-Derives))

build-Derives_example : Builder.build naturals sample_tokens ≡ ok sample
build-Derives_example = build-Derives naturals sample_tokens sample sample-Derives

parse_unary :
    parse naturals (codes " 2*-3 ") ≡ ok (bin Op.mul (leaf 2) (bin Op.sub (leaf 0) (leaf 3)))
unfolding parse tokenize encode trim_space Builder.build should_pop
parse_unary = refl

digit-IsWritten :
    (n : ℕ) → read_digits (show_digit n) ≡ some n → n < 10 → IsWritten naturals show_digit n
digit-IsWritten n r h = record { written = λ e. cc; plain = (ground arith, tt); read = r }

written : All (HasText naturals show_digit) sample_tokens
written = (
  digit-IsWritten 2 refl (omega arith),
  (
    tt,
    (
      digit-IsWritten 3 refl (omega arith),
      (
        tt,
        (
          tt,
          (
            digit-IsWritten 4 refl (omega arith),
            (tt, (tt, (digit-IsWritten 1 refl (omega arith), (tt, tt)))),
          ),
        ),
      ),
    ),
  ),
)

postfix_accepted : parse naturals (codes "(1 2 +)") ≡ ok (bin Op.add (leaf 1) (leaf 2))
unfolding parse tokenize encode trim_space Builder.build should_pop
postfix_accepted = refl

parse-render_example : parse naturals (render naturals show_digit sample_tokens) ≡ ok sample
parse-render_example = parse-render naturals show_digit sample_tokens sample sample-Derives written

build-counts_example :
    (op_nodes sample ≡ tally is_op sample_tokens)
    × (tally is_number sample_tokens + tally is_minus sample_tokens ≡ tally is_op sample_tokens + 1)
build-counts_example = build-counts naturals sample_tokens sample build-Derives_example

build-postfix_example :
    (Builder.build naturals (number 1 ∷ number 2 ∷ op Op.add ∷ [])
      ≡ ok (bin Op.add (leaf 1) (leaf 2)))
    × (Builder.build naturals (lparen ∷ number 1 ∷ number 2 ∷ op Op.add ∷ rparen ∷ [])
        ≡ ok (bin Op.add (leaf 1) (leaf 2)))
    × ((level : Level) (n : Node ℕ) → ¬ Derives 0 level (number 1 ∷ number 2 ∷ op Op.add ∷ []) n)
build-postfix_example = build-postfix naturals 1 2 add_sum

plan-outcome_example : (plan count_up 7 0 sample >>= outcome naturals) ≡ eval naturals sample
unfolding op_nodes
plan-outcome_example = plan-outcome naturals count_up count_up_fresh 7 0 sample (omega arith)

eval_sample : eval naturals (bin Op.add (leaf 2) (bin Op.mul (leaf 3) (leaf 4))) ≡ ok 14
unfolding eval apply
eval_sample = refl

plan-IsPlan_example :
    ((ts : List (Task ℕ)) × (plan count_up 7 0 sample ≡ ok (ts, none)) × IsPlan sample ts)
    ⊎ ((plan count_up 7 0 sample ≡ err too_many) × (max_tasks_per_expr < op_nodes sample))
plan-IsPlan_example =
    plan-IsPlan count_up count_up_fresh 7 0 Op.add (leaf 2) (bin Op.mul (leaf 3) inner)
