-- ===== src/Expression/Builder/Tokens.antt =====
-- What the builder conserves, and the token lists beyond the grammar that it takes.
use golang_service_architect.Common.{
  ℕ, suc, ◌+◌, ◌≡◌, refl, Bool, false, Bool-cases, List, [], ◌∷◌, Result, ok, inl, inr, subst,
  >>=-eq-ok, arith,
}
use golang_service_architect.Apperrors.{Error}
use golang_service_architect.Float64.{Float64}
use golang_service_architect.Expression.Ast.{
  Op, Node, Token, number, op, lparen, rparen, op_of, should_pop, op_nodes,
}
use golang_service_architect.Expression.Builder.{
  AstBuilder, builder, not_lparen, fold_operands, pop_while, discard_lparen, close_paren, feed,
  feed_all, drain, single, build,
}

abbrev pub is_number : {F : Type 0} → Token F → ℕ
is_number (number v) = 1
is_number _ = 0

abbrev pub is_op : {F : Type 0} → Token F → ℕ
is_op (op o) = 1
is_op _ = 0

abbrev pub is_minus : {F : Type 0} → Token F → ℕ
is_minus (op Op.neg) = 1
is_minus _ = 0

-- How many tokens of a kind there are.
abbrev pub tally : {F : Type 0} → (Token F → ℕ) → List (Token F) → ℕ
tally kind [] = 0
tally kind (t ∷ ts) = kind t + tally kind ts

abbrev pub nodes : {F : Type 0} → List (Node F) → ℕ
nodes [] = 0
nodes (n ∷ ns) = op_nodes n + nodes ns

abbrev pub count_operands : {F : Type 0} → List (Node F) → ℕ
count_operands [] = 0
count_operands (n ∷ ns) = suc (count_operands ns)

should_pop-lparen : (F : Type 0) (o : Op) → should_pop {F = F} lparen (op o) ≡ false
unfolding should_pop
should_pop-lparen F Op.neg = refl
should_pop-lparen F _ = refl

module _ (fl : Float64) where
  open fl use {F}

  -- Folding an operator over the operands adds one node, and takes an operand if it is binary.
  fold_operands-counts :
      (o : Op) (ns : List (Node F)) {ms : List (Node F)}
      → fold_operands fl o ns ≡ ok ms
      → (nodes ms ≡ nodes ns + 1)
        × (count_operands ms + 1 ≡ count_operands ns + is_minus {F = F} (op o))
  unfolding fold_operands op_nodes
  fold_operands-counts o ns h = ground arith

  -- Only operators and left parentheses are on the operator stack.
  abbrev Stacked : List (Token F) → Type 0
  Stacked [] = Unit
  Stacked (op o ∷ ops) = Stacked ops
  Stacked (lparen ∷ ops) = Stacked ops
  Stacked _ = ⊥

  -- What the builder holds after `o` operators, `m` of them unary, and `n` numbers.
  record Counts (b : AstBuilder F) (n o m : ℕ) : Type 0 where
    stacked : Stacked b.ops
    operators : nodes b.operands + tally is_op b.ops ≡ o
    balance : count_operands b.operands + nodes b.operands + tally is_minus b.ops ≡ n + m

  Counts-ok :
      {b b' : AstBuilder F} {n o m : ℕ}
      → Counts b n o m
      → ◌≡◌ {A = Result Error (AstBuilder F)} (ok b) (ok b')
      → Counts b' n o m
  Counts-ok {n = n} {o = o} {m = m} c h = subst (λ b. Counts b n o m) (cc) c

  pop_while-Counts :
      (test : Token F → Bool) (ops : List (Token F)) (ns : List (Node F)) {b : AstBuilder F}
      {n o m : ℕ}
      → test lparen ≡ false
      → Counts (builder ns ops) n o m
      → pop_while fl test ops ns ≡ ok b
      → Counts b n o m
  unfolding pop_while
  pop_while-Counts test [] ns {n = n} {o = o} {m = m} l c h = Counts-ok c h
  pop_while-Counts test (lparen ∷ ops) ns l c h = Counts-ok c (rw l at h)
  pop_while-Counts test (number v ∷ ops) ns l c h = absurd c.stacked
  pop_while-Counts test (rparen ∷ ops) ns l c h = absurd c.stacked
  pop_while-Counts test (op p ∷ ops) ns l c h = elim (Bool-cases (test (op p))) [
    | inl popped ↦
        let (ms, folded, rest) =
          >>=-eq-ok (fold_operands fl p ns) (pop_while fl test ops) (rw popped at h) in
        let counts = fold_operands-counts p ns folded in
        pop_while-Counts test ops ms l
          (record {
            stacked = c.stacked;
            operators = omega (arith, counts, c.operators);
            balance = omega (arith, counts, c.balance);
          })
          rest
    | inr kept ↦ Counts-ok c (rw kept at h)
  ]

  -- The loop stops at the bottom or at a token that fails its test.
  abbrev Stopped : (Token F → Bool) → List (Token F) → Type 0
  Stopped test [] = Unit
  Stopped test (t ∷ ops) = test t ≡ false

  Stopped-ok :
      (test : Token F → Bool) (ops : List (Token F)) {ns : List (Node F)} {b : AstBuilder F}
      → Stopped test ops
      → ◌≡◌ {A = Result Error (AstBuilder F)} (ok (builder ns ops)) (ok b)
      → Stopped test b.ops
  Stopped-ok test ops {ns = ns} {b = b} s h =
      subst (λ b'. Stopped test b'.ops) {x = builder ns ops} {y = b} (cc) s

  pop_while-Stopped :
      (test : Token F → Bool) (ops : List (Token F)) (ns : List (Node F)) {b : AstBuilder F}
      → pop_while fl test ops ns ≡ ok b
      → Stopped test b.ops
  unfolding pop_while
  pop_while-Stopped test [] ns h = Stopped-ok test [] tt h
  pop_while-Stopped test (t ∷ ops) ns h = elim (Bool-cases (test t)) [
    | inl popped ↦
        let (ms, folded, rest) =
          >>=-eq-ok (fold_operands fl (op_of t) ns) (pop_while fl test ops) (rw popped at h) in
        pop_while-Stopped test ops ms rest
    | inr kept ↦ Stopped-ok test (t ∷ ops) kept (rw kept at h)
  ]

  discard-Counts :
      (ops : List (Token F)) (ns : List (Node F)) {b : AstBuilder F} {n o m : ℕ}
      → Stopped not_lparen ops
      → Counts (builder ns ops) n o m
      → discard_lparen fl (builder ns ops) ≡ ok b
      → Counts b n o m
  unfolding discard_lparen
  discard-Counts [] ns s c h = absurd (cc)
  discard-Counts (lparen ∷ ops) ns s c h =
      Counts-ok
        (record {
          stacked = c.stacked;
          operators = omega (arith, c.operators);
          balance = omega (arith, c.balance);
        })
        h
  discard-Counts (op o ∷ ops) ns s c h = absurd (cc)
  discard-Counts (number v ∷ ops) ns s c h = absurd c.stacked
  discard-Counts (rparen ∷ ops) ns s c h = absurd c.stacked

  close_paren-Counts :
      (b : AstBuilder F) {b' : AstBuilder F} {n o m : ℕ}
      → Counts b n o m
      → close_paren fl b ≡ ok b'
      → Counts b' n o m
  unfolding close_paren
  close_paren-Counts b c h =
      let (b₁, popped, discarded) =
        >>=-eq-ok (pop_while fl not_lparen b.ops b.operands) (discard_lparen fl) h in
      let c₁ =
        pop_while-Counts not_lparen b.ops b.operands refl
          (record { stacked = c.stacked; operators = c.operators; balance = c.balance }) popped in
      discard-Counts b₁.ops b₁.operands (pop_while-Stopped not_lparen b.ops b.operands popped) c₁
        discarded

  feed-Counts :
      (t : Token F) (b : AstBuilder F) {b' : AstBuilder F} {n o m : ℕ}
      → Counts b n o m
      → feed fl b t ≡ ok b'
      → Counts b' (n + is_number t) (o + is_op t) (m + is_minus t)
  unfolding feed op_nodes
  feed-Counts (number v) b c h =
      Counts-ok
        (record {
          stacked = c.stacked;
          operators = omega (arith, c.operators);
          balance = omega (arith, c.balance);
        })
        h
  feed-Counts (op o) b c h =
      let (b₁, popped, pushed) =
        >>=-eq-ok (pop_while fl (λ top. should_pop top (op o)) b.ops b.operands) _ h in
      let c₁ =
        pop_while-Counts (λ top. should_pop top (op o)) b.ops b.operands (should_pop-lparen F o)
          (record { stacked = c.stacked; operators = c.operators; balance = c.balance }) popped in
      Counts-ok
        (record {
          stacked = c₁.stacked;
          operators = omega (arith, c₁.operators);
          balance = omega (arith, c₁.balance);
        })
        pushed
  feed-Counts lparen b c h =
      Counts-ok
        (record {
          stacked = c.stacked;
          operators = omega (arith, c.operators);
          balance = omega (arith, c.balance);
        })
        h
  feed-Counts rparen b c h =
      let c₁ = close_paren-Counts b c h in
      record {
        stacked = c₁.stacked;
        operators = omega (arith, c₁.operators);
        balance = omega (arith, c₁.balance);
      }

  feed_all-Counts :
      (ts : List (Token F)) (b : AstBuilder F) {b' : AstBuilder F} {n o m : ℕ}
      → Counts b n o m
      → feed_all fl b ts ≡ ok b'
      → Counts b' (n + tally is_number ts) (o + tally is_op ts) (m + tally is_minus ts)
  unfolding feed_all
  feed_all-Counts [] b c h =
      let c₁ = Counts-ok c h in
      record {
        stacked = c₁.stacked;
        operators = omega (arith, c₁.operators);
        balance = omega (arith, c₁.balance);
      }
  feed_all-Counts (t ∷ ts) b c h =
      let (b₁, fed, rest) = >>=-eq-ok (feed fl b t) (λ b₁. feed_all fl b₁ ts) h in
      let c₁ = feed_all-Counts ts b₁ (feed-Counts t b c fed) rest in
      record {
        stacked = c₁.stacked;
        operators = omega (arith, c₁.operators);
        balance = omega (arith, c₁.balance);
      }

  drain-Counts :
      (ops : List (Token F)) (ns : List (Node F)) {ms : List (Node F)} {n o m : ℕ}
      → Counts (builder ns ops) n o m
      → drain fl ops ns ≡ ok ms
      → Counts (builder ms []) n o m
  unfolding drain
  drain-Counts [] ns {n = n} {o = o} {m = m} c h =
      subst (λ ms. Counts (builder ms []) n o m) {x = ns} (cc) c
  drain-Counts (lparen ∷ ops) ns c h = absurd (cc)
  drain-Counts (number v ∷ ops) ns c h = absurd c.stacked
  drain-Counts (rparen ∷ ops) ns c h = absurd c.stacked
  drain-Counts (op p ∷ ops) ns c h =
      let (ms, folded, rest) = >>=-eq-ok (fold_operands fl p ns) (drain fl ops) h in
      let counts = fold_operands-counts p ns folded in
      drain-Counts ops ms
        (record {
          stacked = c.stacked;
          operators = omega (arith, counts, c.operators);
          balance = omega (arith, counts, c.balance);
        })
        rest

  single-Counts :
      (ns : List (Node F)) {r : Node F} {n o m : ℕ}
      → Counts (builder ns []) n o m
      → single fl ns ≡ ok r
      → (op_nodes r ≡ o) × (n + m ≡ o + 1)
  single-Counts [] c h = absurd (cc)
  single-Counts (r ∷ []) {r = r'} c h =
      let e : r ≡ r' = cc in
      rw (← e) (omega (arith, c.operators), omega (arith, c.balance, c.operators))
  single-Counts (r ∷ r' ∷ ns) c h = absurd (cc)

  -- A tree that is built has one node for each operator token, and the numbers of the text are one
  -- more than its binary operators: no token is lost and none is made up.
  pub build-counts :
      (ts : List (Token F)) (r : Node F)
      → build fl ts ≡ ok r
      → (op_nodes r ≡ tally is_op ts)
        × (tally is_number ts + tally is_minus ts ≡ tally is_op ts + 1)
  unfolding build
  build-counts ts r h =
      let (b, fed, rest) = >>=-eq-ok (feed_all fl (builder [] []) ts) _ h in
      let (ns, drained, one) = >>=-eq-ok (drain fl b.ops b.operands) (single fl) rest in
      let start : Counts (builder [] []) 0 0 0 = record {
        stacked = tt;
        operators = refl;
        balance = refl;
      } in
      let c = feed_all-Counts ts (builder [] []) start fed in
      let c₁ =
        drain-Counts b.ops b.operands
          (record { stacked = c.stacked; operators = c.operators; balance = c.balance }) drained in
      omega (arith, single-Counts ns c₁ one)
