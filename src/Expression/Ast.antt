-- ===== src/Expression/Ast.antt =====
-- The syntax tree and the tokens of parser.go.
use golang_service_architect.Common.{ℕ, ◌+◌, String, Bool, true, false, leb, ltb}

-- An operator is a string in the source: the five that it names, or another one.
pub data Op : Type 0 where
  add sub mul div neg : Op
  other : String → Op

-- `Node`: a leaf where `Op` is empty, an operator with two children elsewhere.
pub data Node (F : Type 0) : Type 0 where
  leaf : F → Node F
  bin : Op → Node F → Node F → Node F

unfoldable pub is_leaf : {F : Type 0} → Node F → Bool
is_leaf (leaf v) = true
is_leaf (bin o l r) = false

pub data Token (F : Type 0) : Type 0 where
  number : F → Token F
  op : Op → Token F
  lparen rparen : Token F

-- The field `op` of a token, empty for the kinds that have none.
abbrev pub op_of : {F : Type 0} → Token F → Op
op_of (op o) = o
op_of _ = other ""

unfoldable pub precedence : Op → ℕ
precedence neg = 3
precedence mul = 2
precedence div = 2
precedence _ = 1

-- Associativity: a binary operator is popped on `≥`, the unary minus only on `>`.
unfoldable pub should_pop : {F : Type 0} → Token F → Token F → Bool
unfolding precedence
should_pop (op top) (op neg) = ltb (precedence neg) (precedence top)
should_pop (op top) incoming = leb (precedence (op_of incoming)) (precedence top)
should_pop _ incoming = false

-- The number of operator nodes of a tree.
unfoldable pub op_nodes : {F : Type 0} → Node F → ℕ
op_nodes (leaf v) = 0
op_nodes (bin o l r) = op_nodes l + op_nodes r + 1
