-- ===== src/Expression/Builder.antt =====
-- The shunting-yard builder of parser.go. Both stacks are lists, the top first.
pub mod Grammar
pub mod Tokens
pub mod Postfix
use golang_service_architect.Common.{
  String, Bool, true, false, List, [], ◌∷◌, Result, ok, err, ◌>>=◌, if◌then◌else◌,
}
use golang_service_architect.Apperrors.{Error, Code, new}
use golang_service_architect.Float64.{Float64}
use golang_service_architect.Expression.Ast.{
  Op, Node, leaf, bin, Token, number, op, lparen, rparen, op_of, should_pop,
}

-- `astBuilder`; `ops` holds operators and left parentheses.
pub record AstBuilder (F : Type 0) : Type 0 where
  pub operands : List (Node F)
  pub ops : List (Token F)

abbrev pub builder : {F : Type 0} → List (Node F) → List (Token F) → AstBuilder F
builder operands ops = record { operands = operands; ops = ops }

abbrev pub malformed : Error
malformed = new Code.invalid_input "malformed expression"

abbrev pub unbalanced : Error
unbalanced = new Code.invalid_input "unbalanced parentheses"

abbrev pub is_lparen : {F : Type 0} → Token F → Bool
is_lparen lparen = true
is_lparen _ = false

-- The test of the loop in `closeParen`: `b.top().kind != tokLParen`.
abbrev pub not_lparen : {F : Type 0} → Token F → Bool
not_lparen lparen = false
not_lparen _ = true

module _ (fl : Float64) where
  open fl use {F, nought}

  -- The body of `popOp`, given the operator that it takes off the stack.
  pub fold_operands : Op → List (Node F) → Result Error (List (Node F))
  fold_operands Op.neg [] = err malformed
  fold_operands Op.neg (r ∷ operands) = ok (bin Op.sub (leaf nought) r ∷ operands)
  fold_operands o (r ∷ l ∷ operands) = ok (bin o l r ∷ operands)
  fold_operands o _ = err malformed

  -- `for len(b.ops) > 0 && test(b.top()) { popOp }`, the loop of `feed` and of `closeParen`.
  pub pop_while : (Token F → Bool) → List (Token F) → List (Node F) → Result Error (AstBuilder F)
  pop_while test [] operands = ok (builder operands [])
  pop_while test (top ∷ ops) operands =
      let rest = λ (operands' : List (Node F)). pop_while test ops operands' in
      if test top
      then (fold_operands (op_of top) operands >>= rest)
      else ok (builder operands (top ∷ ops))

  -- The end of `closeParen`: discard the left parenthesis that stopped the loop.
  pub discard_lparen : AstBuilder F → Result Error (AstBuilder F)
  discard_lparen b = elim b.ops [ [] ↦ err unbalanced | _ ∷ ops ↦ ok (builder b.operands ops) ]

  pub close_paren : AstBuilder F → Result Error (AstBuilder F)
  unfolding pop_while discard_lparen
  close_paren b = do b' ← pop_while not_lparen b.ops b.operands; discard_lparen b'

  pub feed : AstBuilder F → Token F → Result Error (AstBuilder F)
  unfolding pop_while close_paren
  feed b (number v) = ok (builder (leaf v ∷ b.operands) b.ops)
  feed b (op o) = do
    b' ← pop_while (λ top. should_pop top (op o)) b.ops b.operands
    ok (builder b'.operands (op o ∷ b'.ops))
  feed b lparen = ok (builder b.operands (lparen ∷ b.ops))
  feed b rparen = close_paren b

  pub feed_all : AstBuilder F → List (Token F) → Result Error (AstBuilder F)
  unfolding feed
  feed_all b [] = ok b
  feed_all b (t ∷ tokens) = do b' ← feed b t; feed_all b' tokens

  -- The last loop of `build`: a left parenthesis that is still open is an error.
  pub drain : List (Token F) → List (Node F) → Result Error (List (Node F))
  unfolding fold_operands
  drain [] operands = ok operands
  drain (top ∷ ops) operands =
      let rest = λ (operands' : List (Node F)). drain ops operands' in
      if is_lparen top then err unbalanced else (fold_operands (op_of top) operands >>= rest)

  abbrev pub single : List (Node F) → Result Error (Node F)
  single (n ∷ []) = ok n
  single _ = err malformed

  unfoldable pub build : List (Token F) → Result Error (Node F)
  unfolding feed_all drain
  build tokens = do
    b ← feed_all (builder [] []) tokens
    operands ← drain b.ops b.operands
    single operands
