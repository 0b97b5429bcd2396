-- ===== src/Expression/Builder/Grammar.antt =====
-- The grammar of expressions and the builder's correctness for it.
use golang_service_architect.Common.{
  ℕ, ◌≤◌, ◌≡◌, refl, Bool, true, List, [], ◌∷◌, ◌++◌, Result, ok, err, ◌>>=◌, Result-cases,
  bind-then, ◌⊎◌, inl, inr, suc, ◌∙◌, arith,
}
use golang_service_architect.Apperrors.{Error}
use golang_service_architect.Float64.{Float64}
use golang_service_architect.Expression.Ast.{
  Op, Node, leaf, bin, Token, number, op, lparen, rparen, op_of, precedence, should_pop,
}
use golang_service_architect.Expression.Builder.{
  AstBuilder, builder, not_lparen, fold_operands, pop_while, close_paren, discard_lparen, feed,
  feed_all, drain, build, unbalanced,
}

-- The levels of the grammar, loosest first, and the precedence of their operators.
pub data Level : Type 0 where
  sum term factor : Level

abbrev rank : Level → ℕ
rank Level.sum = 1
rank Level.term = 2
rank Level.factor = 3

pub data IsBinary : Level → Op → Type 0 where
  add_sum : IsBinary Level.sum Op.add
  sub_sum : IsBinary Level.sum Op.sub
  mul_term : IsBinary Level.term Op.mul
  div_term : IsBinary Level.term Op.div

-- `Derives z level tokens n`: the tokens are an expression of the level, with the tree `n`.
-- Sums and terms associate to the left; a unary minus binds tighter and stands for `z - n`.
pub data Derives {F : Type 0} (z : F) : Level → List (Token F) → Node F → Type 0 where
  literal : (v : F) → Derives z Level.factor (number v ∷ []) (leaf v)
  paren :
      {ts : List (Token F)} {n : Node F}
      → Derives z Level.sum ts n
      → Derives z Level.factor (lparen ∷ (ts ++ rparen ∷ [])) n
  negate :
      {ts : List (Token F)} {n : Node F}
      → Derives z Level.factor ts n
      → Derives z Level.factor (op Op.neg ∷ ts) (bin Op.sub (leaf z) n)
  from_factor :
      {ts : List (Token F)} {n : Node F} → Derives z Level.factor ts n → Derives z Level.term ts n
  scale :
      {ts us : List (Token F)} {l r : Node F} {o : Op}
      → Derives z Level.term ts l
      → IsBinary Level.term o
      → Derives z Level.factor us r
      → Derives z Level.term (ts ++ op o ∷ us) (bin o l r)
  from_term :
      {ts : List (Token F)} {n : Node F} → Derives z Level.term ts n → Derives z Level.sum ts n
  shift :
      {ts us : List (Token F)} {l r : Node F} {o : Op}
      → Derives z Level.sum ts l
      → IsBinary Level.sum o
      → Derives z Level.term us r
      → Derives z Level.sum (ts ++ op o ∷ us) (bin o l r)

-- The operator on top of the stack binds less than the level's.
abbrev Below : {F : Type 0} → Level → List (Token F) → Type 0
Below Level.factor ops = Unit
Below _ [] = Unit
Below level (op o ∷ ops) = suc (precedence o) ≤ rank level
Below _ _ = Unit

-- The test pops every operator of the level and of the levels that bind tighter.
abbrev Pops : {F : Type 0} → Level → (Token F → Bool) → Type 0
Pops level test = (o : Op) → rank level ≤ precedence o → test (op o) ≡ true

precedence_le : (o : Op) → precedence o ≤ 3
unfolding precedence
precedence_le Op.neg = omega arith
precedence_le _ = omega arith

rank-precedence : {level : Level} {o : Op} → IsBinary level o → rank level ≤ precedence o
unfolding precedence
rank-precedence add_sum = omega arith
rank-precedence sub_sum = omega arith
rank-precedence mul_term = omega arith
rank-precedence div_term = omega arith

Below-op :
    {F : Type 0} {level : Level} {o : Op} (operand : Level) (ops : List (Token F))
    → IsBinary level o
    → suc (rank level) ≤ rank operand
    → Below operand (op o ∷ ops)
unfolding precedence
Below-op Level.sum ops add_sum h = omega arith
Below-op Level.sum ops sub_sum h = omega arith
Below-op Level.sum ops mul_term h = omega arith
Below-op Level.sum ops div_term h = omega arith
Below-op Level.term ops add_sum h = omega arith
Below-op Level.term ops sub_sum h = omega arith
Below-op Level.term ops mul_term h = omega arith
Below-op Level.term ops div_term h = omega arith
Below-op Level.factor ops i h = tt

module _ (fl : Float64) where
  open fl use {F, nought}

  -- The state `b` has `n` on top of `operands`, but for operators that any closing test pops.
  abbrev Settles : Level → Node F → List (Node F) → List (Token F) → AstBuilder F → Type 0
  Settles level n operands ops b =
      (test : Token F → Bool)
      → Pops level test
      → pop_while fl test b.ops b.operands ≡ pop_while fl test ops (n ∷ operands)

  feed_all-append :
      (ts us : List (Token F)) (b : AstBuilder F)
      → feed_all fl b (ts ++ us) ≡ (feed_all fl b ts >>= λ b'. feed_all fl b' us)
  unfolding feed_all
  feed_all-append [] us b = refl
  feed_all-append (t ∷ ts) us b = elim (feed_cases t b) [
    | inl (b', e) ↦ simp e (feed_all-append ts us b')
    | inr (x, e) ↦ simp e
  ]
    where
      feed_cases :
          (t : Token F) (b : AstBuilder F)
          → ((b' : AstBuilder F) × (feed fl b t ≡ ok b')) ⊎ ((x : Error) × (feed fl b t ≡ err x))
      feed_cases t b = Result-cases (feed fl b t)

  Pops-should_pop :
      {level : Level} {o : Op}
      → IsBinary level o
      → Pops level (λ (top : Token F). should_pop top (op o))
  unfolding should_pop
  Pops-should_pop add_sum o h = ground arith
  Pops-should_pop sub_sum o h = ground arith
  Pops-should_pop mul_term o h = ground arith
  Pops-should_pop div_term o h = ground arith

  -- An operator that binds less stays on the stack.
  pop_while-Below :
      {level : Level} {o : Op} (operands : List (Node F)) (ops : List (Token F))
      → IsBinary level o
      → Below level ops
      → pop_while fl (λ top. should_pop top (op o)) ops operands ≡ ok (builder operands ops)
  unfolding pop_while should_pop
  pop_while-Below operands [] i h = refl
  pop_while-Below operands (op top ∷ ops) add_sum h = ground arith
  pop_while-Below operands (op top ∷ ops) sub_sum h = ground arith
  pop_while-Below operands (op top ∷ ops) mul_term h = ground arith
  pop_while-Below operands (op top ∷ ops) div_term h = ground arith
  pop_while-Below operands (lparen ∷ ops) i h = refl
  pop_while-Below operands (rparen ∷ ops) i h = refl
  pop_while-Below operands (number v ∷ ops) i h = refl

  -- A binary operator meets a settled left operand.
  feed-op :
      {level : Level} {o : Op} {n : Node F} {operands : List (Node F)} {ops : List (Token F)}
      (b : AstBuilder F)
      → IsBinary level o
      → Below level ops
      → Settles level n operands ops b
      → feed fl b (op o) ≡ ok (builder (n ∷ operands) (op o ∷ ops))
  unfolding feed
  feed-op b i h s = rw (s _ (Pops-should_pop i), pop_while-Below _ _ i h)

  -- The state after the tokens of an expression, and that it settles.
  abbrev Feeds : Level → List (Token F) → Node F → Type 0
  Feeds level ts n =
      (operands : List (Node F)) (ops : List (Token F))
      → Below level ops
      → (b : AstBuilder F) × (feed_all fl (builder operands ops) ts ≡ ok b)
        × Settles level n operands ops b

  Feeds-literal : (v : F) → Feeds Level.factor (number v ∷ []) (leaf v)
  unfolding feed_all feed
  Feeds-literal v operands ops h = (builder (leaf v ∷ operands) ops, refl, λ test p. refl)

  Feeds-paren :
      (ts : List (Token F)) (n : Node F)
      → Feeds Level.sum ts n
      → Feeds Level.factor (lparen ∷ (ts ++ rparen ∷ [])) n
  unfolding feed_all feed close_paren discard_lparen
  Feeds-paren ts n f operands ops h =
      let (b, e, s) = f operands (lparen ∷ ops) tt in
      (
        builder (n ∷ operands) ops,
        rw (feed_all-append, e, s not_lparen (λ o p. refl)) (unfold pop_while in refl),
        λ test p. refl,
      )

  -- A unary minus pops nothing.
  pop_while-neg :
      (operands : List (Node F)) (ops : List (Token F))
      → pop_while fl (λ top. should_pop top (op Op.neg)) ops operands ≡ ok (builder operands ops)
  unfolding pop_while should_pop
  pop_while-neg operands [] = refl
  pop_while-neg operands (op o ∷ ops) = ground (arith, precedence_le o)
  pop_while-neg operands (_ ∷ ops) = refl

  Feeds-negate :
      (ts : List (Token F)) (n : Node F)
      → Feeds Level.factor ts n
      → Feeds Level.factor (op Op.neg ∷ ts) (bin Op.sub (leaf nought) n)
  unfolding feed_all feed precedence
  Feeds-negate ts n f operands ops h =
      let (b, e, s) = f operands (op Op.neg ∷ ops) tt in
      (
        b,
        rw (pop_while-neg operands ops) e,
        λ test p. s test p ∙ (unfold pop_while fold_operands in rw (p Op.neg (omega arith))),
      )

  fold-binary :
      {level : Level} {o : Op} (l r : Node F) (operands : List (Node F))
      → IsBinary level o
      → fold_operands fl o (r ∷ l ∷ operands) ≡ ok (bin o l r ∷ operands)
  unfolding fold_operands
  fold-binary l r operands add_sum = refl
  fold-binary l r operands sub_sum = refl
  fold-binary l r operands mul_term = refl
  fold-binary l r operands div_term = refl

  pop_while-binary :
      {level : Level} {o : Op} (l r : Node F) (operands : List (Node F)) (ops : List (Token F))
      (test : Token F → Bool)
      → IsBinary level o
      → Pops level test
      → pop_while fl test (op o ∷ ops) (r ∷ l ∷ operands)
        ≡ pop_while fl test ops (bin o l r ∷ operands)
  unfolding pop_while
  pop_while-binary l r operands ops test i p =
      rw (p _ (rank-precedence i), fold-binary l r operands i)

  Feeds-binary :
      {level : Level} (operand : Level) (ts us : List (Token F)) (l r : Node F) {o : Op}
      → IsBinary level o
      → suc (rank level) ≤ rank operand
      → Feeds level ts l
      → Feeds operand us r
      → Feeds level (ts ++ op o ∷ us) (bin o l r)
  unfolding feed_all
  Feeds-binary operand ts us l r {o = o} i lt f g operands ops h =
      let (b, e, s) = f operands ops h in
      let (c, e', s') = g (l ∷ operands) (op o ∷ ops) (Below-op operand ops i lt) in
      (
        c,
        rw (feed_all-append, e, feed-op b i h s) e',
        λ test p. s' test (λ o' q. p o' (omega arith)) ∙ pop_while-binary l r operands ops test i p,
      )

  Below-from_term : (ops : List (Token F)) → Below Level.sum ops → Below Level.term ops
  Below-from_term [] h = tt
  Below-from_term (op o ∷ ops) h = omega arith
  Below-from_term (lparen ∷ ops) h = tt
  Below-from_term (rparen ∷ ops) h = tt
  Below-from_term (number v ∷ ops) h = tt

  Derives-Feeds :
      {level : Level} {ts : List (Token F)} {n : Node F}
      → Derives nought level ts n
      → Feeds level ts n
  Derives-Feeds (literal v) = Feeds-literal v
  Derives-Feeds (paren d) = Feeds-paren _ _ (Derives-Feeds d)
  Derives-Feeds (negate d) = Feeds-negate _ _ (Derives-Feeds d)
  Derives-Feeds (from_factor d) =
      let f = Derives-Feeds d in
      λ operands ops h.
        let (b, e, s) = f operands ops tt in (b, e, λ test p. s test (λ o q. p o (omega arith)))
  Derives-Feeds (scale d i d') =
      Feeds-binary Level.factor _ _ _ _ i (omega arith) (Derives-Feeds d) (Derives-Feeds d')
  Derives-Feeds (from_term d) =
      let f = Derives-Feeds d in
      λ operands ops h.
        let (b, e, s) = f operands ops (Below-from_term ops h) in
        (b, e, λ test p. s test (λ o q. p o (omega arith)))
  Derives-Feeds (shift d i d') =
      Feeds-binary Level.term _ _ _ _ i (omega arith) (Derives-Feeds d) (Derives-Feeds d')

  abbrev none_open : AstBuilder F → Result Error (List (Node F))
  none_open b = elim b.ops [ [] ↦ ok b.operands | _ ∷ _ ↦ err unbalanced ]

  -- The last loop of `build` is the loop of `closeParen`, with an open parenthesis an error.
  drain-pop_while :
      (ops : List (Token F)) (operands : List (Node F))
      → drain fl ops operands ≡ (pop_while fl not_lparen ops operands >>= none_open)
  unfolding drain pop_while
  drain-pop_while [] operands = refl
  drain-pop_while (lparen ∷ ops) operands = refl
  drain-pop_while (number v ∷ ops) operands =
      bind-then (fold_operands fl (op_of {F = F} (number v)) operands) (drain fl ops)
        (pop_while fl not_lparen ops) none_open (drain-pop_while ops)
  drain-pop_while (op o ∷ ops) operands =
      bind-then (fold_operands fl o operands) (drain fl ops) (pop_while fl not_lparen ops) none_open
        (drain-pop_while ops)
  drain-pop_while (rparen ∷ ops) operands =
      bind-then (fold_operands fl (op_of {F = F} rparen) operands) (drain fl ops)
        (pop_while fl not_lparen ops) none_open (drain-pop_while ops)

  -- The tokens of an expression build its tree: precedence, associativity, parentheses and the
  -- unary minus are those of the grammar.
  pub build-Derives :
      (ts : List (Token F)) (n : Node F) → Derives nought Level.sum ts n → build fl ts ≡ ok n
  unfolding build
  build-Derives ts n d =
      let (b, e, s) = Derives-Feeds d [] [] tt in
      rw (e, drain-pop_while b.ops b.operands, s not_lparen (λ o p. refl))
        (unfold pop_while in refl)
