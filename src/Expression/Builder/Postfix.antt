-- ===== src/Expression/Builder/Postfix.antt =====
-- The builder takes operators behind their operands, which the grammar does not derive.
use golang_service_architect.Common.{◌≡◌, refl, Bool, true, false, List, [], ◌∷◌, ◌++◌, ok}
use golang_service_architect.Float64.{Float64}
use golang_service_architect.Expression.Ast.{
  Op, Node, leaf, bin, should_pop, Token, number, op, lparen, rparen,
}
use golang_service_architect.Expression.Builder.{build}
use golang_service_architect.Expression.Builder.Grammar.{
  Derives, literal, paren, negate, from_factor, scale, from_term, shift, Level, IsBinary, add_sum,
  sub_sum, mul_term, div_term,
}

module _ {F : Type 0} where
  abbrev closes : Token F → Bool
  closes (number v) = true
  closes rparen = true
  closes _ = false

  abbrev ends_closed : List (Token F) → Bool
  ends_closed [] = false
  ends_closed (t ∷ []) = closes t
  ends_closed (t ∷ ts) = ends_closed ts

  ends_closed-cons :
      (t : Token F) (us : List (Token F)) → ends_closed us ≡ true → ends_closed (t ∷ us) ≡ true
  ends_closed-cons t [] h = cc
  ends_closed-cons t (u ∷ us) h = h

  ends_closed-append :
      (ts us : List (Token F)) → ends_closed us ≡ true → ends_closed (ts ++ us) ≡ true
  ends_closed-append [] us h = h
  ends_closed-append (t ∷ ts) us h = ends_closed-cons t (ts ++ us) (ends_closed-append ts us h)

  -- An expression of the grammar ends with a number or a right parenthesis.
  Derives-ends_closed :
      {z : F} {level : Level} {ts : List (Token F)} {n : Node F}
      → Derives z level ts n
      → ends_closed ts ≡ true
  Derives-ends_closed (literal v) = refl
  Derives-ends_closed (paren {ts} d) = ends_closed-append (lparen ∷ ts) (rparen ∷ []) refl
  Derives-ends_closed (negate {ts} d) = ends_closed-cons (op Op.neg) ts (Derives-ends_closed d)
  Derives-ends_closed (from_factor d) = Derives-ends_closed d
  Derives-ends_closed (scale {ts} {us} {l} {r} {o} d i d') =
      ends_closed-append ts (op o ∷ us) (ends_closed-cons (op o) us (Derives-ends_closed d'))
  Derives-ends_closed (from_term d) = Derives-ends_closed d
  Derives-ends_closed (shift {ts} {us} {l} {r} {o} d i d') =
      ends_closed-append ts (op o ∷ us) (ends_closed-cons (op o) us (Derives-ends_closed d'))

module _ (fl : Float64) where
  open fl use {F, nought}

  -- Two numbers with a binary operator behind them build the tree of the infix expression, in
  -- parentheses or bare, and the bare tokens are no expression of the grammar at any level.
  pub build-postfix :
      {at : Level} {o : Op} (v w : F)
      → IsBinary at o
      → (build fl (number v ∷ number w ∷ op o ∷ []) ≡ ok (bin o (leaf v) (leaf w)))
        × (build fl (lparen ∷ number v ∷ number w ∷ op o ∷ rparen ∷ [])
            ≡ ok (bin o (leaf v) (leaf w)))
        × ((level : Level) (n : Node F)
            → ¬ Derives nought level (number v ∷ number w ∷ op o ∷ []) n)
  unfolding build should_pop
  build-postfix v w add_sum = (refl, refl, λ level n d. cc (Derives-ends_closed d))
  build-postfix v w sub_sum = (refl, refl, λ level n d. cc (Derives-ends_closed d))
  build-postfix v w mul_term = (refl, refl, λ level n d. cc (Derives-ends_closed d))
  build-postfix v w div_term = (refl, refl, λ level n d. cc (Derives-ends_closed d))
