-- ===== src/Expression/Scanner/Operands.antt =====
-- The tokens of an expression of the grammar are placed the way the scanner places them.
use golang_service_architect.Common.{◌≡◌, refl, ◌∙◌, true, false, List, [], ◌∷◌, ◌++◌}
use golang_service_architect.Expression.Ast.{Op, Node, Token, op, rparen}
use golang_service_architect.Expression.Builder.Grammar.{
  Derives, literal, paren, negate, from_factor, scale, from_term, shift, Level, IsBinary, add_sum,
  sub_sum, mul_term, div_term,
}
use golang_service_architect.Expression.Scanner.Placement.{
  fits, IsPlaced, IsPlaced-append, expects_after, expects_after-append,
}

fits-binary :
    (F : Type 0) {level : Level} {o : Op} → IsBinary level o → fits {F = F} false (op o) ≡ true
fits-binary F add_sum = refl
fits-binary F sub_sum = refl
fits-binary F mul_term = refl
fits-binary F div_term = refl

module _ {F : Type 0} where
  -- The tokens stand where an operand is expected, and leave none expected.
  abbrev IsOperand : List (Token F) → Type 0
  IsOperand ts = IsPlaced true ts × (expects_after true ts ≡ false)

  IsOperand-append :
      (ts us : List (Token F))
      → IsOperand ts
      → IsPlaced false us
      → expects_after false us ≡ false
      → IsOperand (ts ++ us)
  IsOperand-append ts us h p e =
      (IsPlaced-append true ts us h.0 (rw h.1 p), expects_after-append true ts us ∙ rw h.1 e)

  -- The tokens of an expression of the grammar are well placed.
  pub Derives-IsOperand :
      {z : F} {level : Level} {ts : List (Token F)} {n : Node F}
      → Derives z level ts n
      → IsOperand ts
  Derives-IsOperand (literal v) = ((refl, tt), refl)
  Derives-IsOperand (paren d) =
      let h = IsOperand-append _ (rparen ∷ []) (Derives-IsOperand d) (refl, tt) refl in
      ((refl, h.0), h.1)
  Derives-IsOperand (negate d) = let h = Derives-IsOperand d in ((refl, h.0), h.1)
  Derives-IsOperand (from_factor d) = Derives-IsOperand d
  Derives-IsOperand (scale d i d') =
      let h = Derives-IsOperand d' in
      IsOperand-append _ _ (Derives-IsOperand d) (fits-binary F i, h.0) h.1
  Derives-IsOperand (from_term d) = Derives-IsOperand d
  Derives-IsOperand (shift d i d') =
      let h = Derives-IsOperand d' in
      IsOperand-append _ _ (Derives-IsOperand d) (fits-binary F i, h.0) h.1
