-- ===== src/Expression/Scanner/RoundTrip.antt =====
-- A text written from tokens is scanned into those tokens and, where they are an expression of the
-- grammar, parsed into its tree.
use golang_service_architect.Common.{
  ℕ, ◌≡◌, refl, ◌<◌, ◌≢◌, true, false, List, [], ◌∷◌, ◌++◌, append-nil, length, All, All-append,
  All-weaken, ok, arith,
}
use golang_service_architect.Float64.{Float64}
use golang_service_architect.Text.{Text, is_space}
use golang_service_architect.Text.Trim.{
  is_space-printable, StartsSolid, EndsSolid, EndsSolid-append, trim_space-solid, encode-ascii,
}
use golang_service_architect.Expression.Ast.{Op, Node, Token, number, op, lparen, rparen}
use golang_service_architect.Expression.Builder.Grammar.{Derives, Level, build-Derives}
use golang_service_architect.Expression.Scanner.{is_number_byte, scanner, tokenize, parse}
use golang_service_architect.Expression.Scanner.Placement.{IsPlaced}
use golang_service_architect.Expression.Scanner.Operands.{Derives-IsOperand}
use golang_service_architect.Expression.Scanner.Render.{
  IsNumberText, HasText, text_of, spaced, render, scan-text,
}

is_space-number : (c : ℕ) → is_number_byte c ≡ true → is_space c ≡ false
is_space-number c h = is_space-printable c (ground arith) (ground arith)

EndsSolid-number : (s : Text) → s ≢ [] → IsNumberText s → EndsSolid s
EndsSolid-number [] n h = absurd (n refl)
EndsSolid-number (c ∷ []) n h = is_space-number c h.0
EndsSolid-number (c ∷ d ∷ s) n h = EndsSolid-number (d ∷ s) (λ e. cc) h.1

StartsSolid-number : (s tail : Text) → s ≢ [] → IsNumberText s → StartsSolid (s ++ tail)
StartsSolid-number [] tail n h = absurd (n refl)
StartsSolid-number (c ∷ s) tail n h = is_space-number c h.0

module _ (fl : Float64) (show : fl.F → Text) where
  open fl use {F, nought}

  -- Every byte of a written token is ASCII, and the last one is no space.
  text_of-ascii : (t : Token F) → HasText fl show t → All (λ c. c < 128) (text_of fl show t)
  unfolding text_of
  text_of-ascii (number v) h = All-weaken _ _ (λ c k. ground arith) (show v) h.plain
  text_of-ascii (op (Op.other _)) h = elim h [ ]
  text_of-ascii (op Op.add) h = omega arith
  text_of-ascii (op Op.sub) h = omega arith
  text_of-ascii (op Op.mul) h = omega arith
  text_of-ascii (op Op.div) h = omega arith
  text_of-ascii (op Op.neg) h = omega arith
  text_of-ascii lparen h = omega arith
  text_of-ascii rparen h = omega arith

  text_of-EndsSolid : (t : Token F) → HasText fl show t → EndsSolid (text_of fl show t)
  unfolding text_of is_space
  text_of-EndsSolid (number v) h = EndsSolid-number (show v) h.written h.plain
  text_of-EndsSolid (op (Op.other _)) h = elim h [ ]
  text_of-EndsSolid (op Op.add) h = refl
  text_of-EndsSolid (op Op.sub) h = refl
  text_of-EndsSolid (op Op.mul) h = refl
  text_of-EndsSolid (op Op.div) h = refl
  text_of-EndsSolid (op Op.neg) h = refl
  text_of-EndsSolid lparen h = refl
  text_of-EndsSolid rparen h = refl

  text_of-StartsSolid :
      (t : Token F) (tail : Text) → HasText fl show t → StartsSolid (text_of fl show t ++ tail)
  unfolding text_of is_space
  text_of-StartsSolid (number v) tail h = StartsSolid-number (show v) tail h.written h.plain
  text_of-StartsSolid (op (Op.other _)) tail h = elim h [ ]
  text_of-StartsSolid (op Op.add) tail h = refl
  text_of-StartsSolid (op Op.sub) tail h = refl
  text_of-StartsSolid (op Op.mul) tail h = refl
  text_of-StartsSolid (op Op.div) tail h = refl
  text_of-StartsSolid (op Op.neg) tail h = refl
  text_of-StartsSolid lparen tail h = refl
  text_of-StartsSolid rparen tail h = refl

  spaced-ascii :
      (ts : List (Token F)) → All (HasText fl show) ts → All (λ c. c < 128) (spaced fl show ts)
  unfolding spaced
  spaced-ascii [] hs = tt
  spaced-ascii (t ∷ ts) hs = (
    omega arith,
    All-append _ (text_of fl show t) (spaced fl show ts) (text_of-ascii t hs.0)
        (spaced-ascii ts hs.1),
  )

  spaced-EndsSolid :
      (x : Text) (ts : List (Token F))
      → EndsSolid x
      → All (HasText fl show) ts
      → EndsSolid (x ++ spaced fl show ts)
  unfolding spaced
  spaced-EndsSolid x [] h hs = rw append-nil h
  spaced-EndsSolid x (t ∷ ts) h hs = EndsSolid-append x (spaced fl show (t ∷ ts)) (
      EndsSolid-append (b' ' ∷ []) (text_of fl show t ++ spaced fl show ts)
        (spaced-EndsSolid (text_of fl show t) ts (text_of-EndsSolid t hs.0) hs.1))

  -- Well-placed tokens, of which each has a text that is read back, written as text are scanned into
  -- those tokens.
  tokenize-render :
      (t : Token F) (ts : List (Token F))
      → All (HasText fl show) (t ∷ ts)
      → IsPlaced true (t ∷ ts)
      → tokenize fl (render fl show (t ∷ ts)) ≡ ok (t ∷ ts)
  unfolding tokenize render
  tokenize-render t ts hs p =
      let text = text_of fl show t ++ spaced fl show ts in
      let trimmed =
        trim_space-solid text (text_of-StartsSolid t (spaced fl show ts) hs.0)
          (spaced-EndsSolid (text_of fl show t) ts (text_of-EndsSolid t hs.0) hs.1) in
      let coded = encode-ascii text (
        All-append _ (text_of fl show t) (spaced fl show ts) (text_of-ascii t hs.0)
          (spaced-ascii ts hs.1)) in
      rw (
        trimmed,
        coded,
        scan-text fl show (length text) t ts (scanner fl text) refl (omega arith) hs.0 hs.1 p,
      )

  -- An expression of the grammar, of which each token has a text that is read back, written as text
  -- parses to its tree.
  pub parse-render :
      (ts : List (Token F)) (n : Node F)
      → Derives nought Level.sum ts n
      → All (HasText fl show) ts
      → parse fl (render fl show ts) ≡ ok n
  unfolding parse
  parse-render [] n d hs = absurd (cc (Derives-IsOperand d).1)
  parse-render (t ∷ ts) n d hs =
      rw (tokenize-render t ts hs (Derives-IsOperand d).0) (build-Derives fl (t ∷ ts) n d)
