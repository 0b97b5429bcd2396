-- ===== src/Expression/Scanner.antt =====
-- The scanner of parser.go, over the bytes of the trimmed text. The position is the rest of the
-- text from it on; the loop takes as fuel the bytes that are left, since each step takes one.
pub mod Placement
pub mod Operands
pub mod Render
pub mod RoundTrip
use golang_service_architect.Common.{
  ℕ, zero, suc, Bool, true, false, not, ◌&&◌, ◌||◌, Option, none, some, List, [], ◌∷◌, ◌++◌, length,
  Result, ok, err, ◌>>=◌, leb, ◌==◌, if◌then◌else◌,
}
use golang_service_architect.Apperrors.{Error, Code, Arg, new, newf}
use golang_service_architect.Float64.{Float64}
use golang_service_architect.Text.{Text, trim_space, encode}
use golang_service_architect.Expression.Ast.{Op, Node, Token, number, op, lparen, rparen}
use golang_service_architect.Expression.Builder.{build}

pub record Scanner (F : Type 0) : Type 0 where
  pub rest : List ℕ  -- src[pos:]
  pub out : List (Token F)
  pub expect_operand : Bool

-- The bytes of a number: a digit or a point.
abbrev pub is_number_byte : ℕ → Bool
is_number_byte c = (leb b'0' c && leb c b'9') || c == b'.'

-- The loop of `scanNumber`: the bytes of the number, and what follows.
pub span_number : List ℕ → List ℕ × List ℕ
span_number [] = ([], [])
span_number (c ∷ cs) =
    let (digits, rest) = span_number cs in
    if is_number_byte c then (c ∷ digits, rest) else ([], c ∷ cs)

-- `string(c)` for an operator character.
abbrev pub op_of_byte : ℕ → Op
op_of_byte c =
    if c == b'+' then Op.add else if c == b'-' then Op.sub else if c == b'*' then Op.mul else Op.div

module _ {F : Type 0} where
  abbrev pub emit : Token F → List ℕ → Bool → Scanner F → Scanner F
  emit t rest expect s = record { rest = rest; out = s.out ++ t ∷ []; expect_operand = expect }

  pub scan_operator : ℕ → List ℕ → Scanner F → Result Error (Scanner F)
  scan_operator c rest s =
      if s.expect_operand
      then (if not (c == b'-')
          then err (
              newf Code.invalid_input "operator %q where a value was expected"
                (Arg.bytes (c ∷ []) ∷ []))
          else ok (emit (op Op.neg) rest true s))
      else ok (emit (op (op_of_byte c)) rest true s)

module _ (fl : Float64) where
  open fl use {F, parse_float}

  -- `scanNumber` once its loop has found the bytes of the number and the rest.
  pub finish_number : List ℕ × List ℕ → Scanner F → Result Error (Scanner F)
  finish_number (digits, rest) s = elim (parse_float digits) [
    | none ↦ err (newf Code.invalid_input "bad number %q" (Arg.bytes digits ∷ []))
    | some v ↦ ok (emit (number v) rest false s)
  ]

  pub scan_number : Scanner F → Result Error (Scanner F)
  unfolding span_number finish_number
  scan_number s = finish_number (span_number s.rest) s

  -- `step` at the byte `c`, with `cs` after it.
  pub step_at : ℕ → List ℕ → Scanner F → Result Error (Scanner F)
  unfolding scan_number scan_operator
  step_at c cs s =
      if c == b' ' || c == b'\t'
      then ok (record s { rest = cs })
      else if is_number_byte c
      then scan_number s
      else if c == b'('
      then ok (emit lparen cs true s)
      else if c == b')'
      then ok (emit rparen cs false s)
      else if c == b'+' || c == b'-' || c == b'*' || c == b'/'
      then scan_operator c cs s
      else err (newf Code.invalid_input "illegal character %q" (Arg.bytes (c ∷ []) ∷ []))

  pub scan : ℕ → Scanner F → Result Error (Scanner F)
  unfolding step_at
  scan zero s = ok s
  scan (suc fuel) s = elim s.rest [ [] ↦ ok s | c ∷ cs ↦ step_at c cs s >>= scan fuel ]

  abbrev pub scanner : List ℕ → Scanner F
  scanner src = record { rest = src; out = []; expect_operand = true }

  unfoldable pub tokenize : Text → Result Error (List (Token F))
  unfolding scan
  tokenize raw =
      let src = encode (trim_space raw) in
      scan (length src) (scanner src) >>= λ s. elim s.out [
        | [] ↦ err (new Code.invalid_input "expression is empty")
        | t ∷ ts ↦ ok (t ∷ ts)
      ]

  -- `Parse`
  unfoldable pub parse : Text → Result Error (Node F)
  parse raw = do tokens ← tokenize raw; build fl tokens
