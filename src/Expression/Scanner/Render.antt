-- ===== src/Expression/Scanner/Render.antt =====
-- Tokens written as text, one space between two, are read back by the scanner.
use golang_service_architect.Common.{
  ℕ, zero, suc, ◌≡◌, refl, sym, ap, ◌∙◌, ◌≤◌, ◌≢◌, true, false, some, List, [], ◌∷◌, ◌++◌,
  append_assoc, length, length-append, All, ok, arith,
}
use golang_service_architect.Float64.{Float64}
use golang_service_architect.Text.{Text}
use golang_service_architect.Expression.Ast.{Op, Token, number, op, lparen, rparen}
use golang_service_architect.Expression.Scanner.{
  Scanner, span_number, is_number_byte, emit, scan_operator, finish_number, scan_number, step_at,
  scan,
}
use golang_service_architect.Expression.Scanner.Placement.{fits, expects, IsPlaced, expects_after}

abbrev pub symbol : Op → Text
symbol Op.add = b'+' ∷ []
symbol Op.sub = b'-' ∷ []
symbol Op.mul = b'*' ∷ []
symbol Op.div = b'/' ∷ []
symbol Op.neg = b'-' ∷ []
symbol (Op.other _) = []

abbrev pub IsNumberText : Text → Type 0
IsNumberText s = All (λ c. is_number_byte c ≡ true) s

-- Behind a number stands the end of the text or a byte of no number.
abbrev pub Stops : Text → Type 0
Stops [] = Unit
Stops (c ∷ cs) = is_number_byte c ≡ false

span_number-append :
    (ds tail : Text) → IsNumberText ds → Stops tail → span_number (ds ++ tail) ≡ (ds, tail)
unfolding span_number
span_number-append [] [] h k = refl
span_number-append [] (c ∷ cs) h k = rw k
span_number-append (d ∷ ds) tail h k = rw (h.0, span_number-append ds tail h.1 k)

append_head :
    (d tail : Text)
    → d ≢ []
    → (c : ℕ) × (cs : Text) × (d ++ tail ≡ c ∷ cs) × (length tail ≤ length cs)
append_head [] tail n = absurd (n refl)
append_head (d ∷ ds) tail n = (d, ds ++ tail, refl, omega (arith, length-append ds tail))

module _ (fl : Float64) (show : fl.F → Text) where
  open fl use {F, parse_float}

  -- `show` writes the value as digits and points that `parse_float` reads back.
  pub record IsWritten (v : F) : Type 0 where
    pub written : show v ≢ []
    pub plain : IsNumberText (show v)
    pub read : parse_float (show v) ≡ some v

  -- A token that has a text.
  abbrev pub HasText : Token F → Type 0
  HasText (number v) = IsWritten v
  HasText (op (Op.other _)) = ⊥
  HasText _ = Unit

  unfoldable pub text_of : Token F → Text
  text_of (number v) = show v
  text_of (op o) = symbol o
  text_of lparen = b'(' ∷ []
  text_of rparen = b')' ∷ []

  unfoldable pub spaced : List (Token F) → Text
  spaced [] = []
  spaced (t ∷ ts) = b' ' ∷ (text_of t ++ spaced ts)

  unfoldable pub render : List (Token F) → Text
  unfolding text_of spaced
  render [] = []
  render (t ∷ ts) = text_of t ++ spaced ts

  spaced-Stops : (ts : List (Token F)) → Stops (spaced ts)
  unfolding spaced
  spaced-Stops [] = tt
  spaced-Stops (t ∷ ts) = refl

  scan_number-text :
      (v : F) (tail : Text) (s : Scanner F)
      → IsWritten v
      → Stops tail
      → s.rest ≡ show v ++ tail
      → scan_number fl s ≡ ok (emit (number v) tail false s)
  unfolding scan_number
  scan_number-text v tail s h k r =
      let e : span_number s.rest ≡ (show v, tail) =
        ap span_number r ∙ span_number-append (show v) tail h.plain k in
      ap (λ (p : Text × Text). finish_number fl p s) e ∙ rw (h.read, finish_number)

  number_head :
      (d : Text) (tail : Text) (c : ℕ) (cs : Text)
      → d ≢ []
      → IsNumberText d
      → d ++ tail ≡ c ∷ cs
      → is_number_byte c ≡ true
  number_head [] tail c cs n h e = absurd (n refl)
  number_head (d ∷ ds) tail c cs n h e = ground (arith, h.0)

  step_at-number :
      (c : ℕ) (cs : Text) (s : Scanner F)
      → is_number_byte c ≡ true
      → step_at fl c cs s ≡ scan_number fl s
  unfolding step_at
  step_at-number c cs s h = ground arith

  -- One step reads one token.
  step_at-text :
      (t : Token F) (c : ℕ) (cs tail : Text) (s : Scanner F)
      → HasText t
      → Stops tail
      → fits s.expect_operand t ≡ true
      → text_of t ++ tail ≡ c ∷ cs
      → s.rest ≡ c ∷ cs
      → step_at fl c cs s ≡ ok (emit t tail (expects t) s)
  unfolding text_of step_at scan_operator
  step_at-text (number v) c cs tail s h k f e r =
      step_at-number c cs s (number_head (show v) tail c cs h.written h.plain e)
      ∙ scan_number-text v tail s h k (r ∙ sym e)
  step_at-text (op Op.add) c cs tail s h k f e r = ground arith
  step_at-text (op Op.sub) c cs tail s h k f e r = ground arith
  step_at-text (op Op.mul) c cs tail s h k f e r = ground arith
  step_at-text (op Op.div) c cs tail s h k f e r = ground arith
  step_at-text (op Op.neg) c cs tail s h k f e r = ground arith
  step_at-text (op (Op.other _)) c cs tail s h k f e r = elim h [ ]
  step_at-text lparen c cs tail s h k f e r = ground arith
  step_at-text rparen c cs tail s h k f e r = ground arith

  -- Every token that has a text has one of at least one byte.
  text_head :
      (t : Token F) (tail : Text)
      → HasText t
      → (c : ℕ) × (cs : Text) × (text_of t ++ tail ≡ c ∷ cs) × (length tail ≤ length cs)
  unfolding text_of
  text_head (number v) tail h = append_head (show v) tail h.written
  text_head (op Op.add) tail h = (b'+', tail, refl, omega arith)
  text_head (op Op.sub) tail h = (b'-', tail, refl, omega arith)
  text_head (op Op.mul) tail h = (b'*', tail, refl, omega arith)
  text_head (op Op.div) tail h = (b'/', tail, refl, omega arith)
  text_head (op Op.neg) tail h = (b'-', tail, refl, omega arith)
  text_head (op (Op.other _)) tail h = elim h [ ]
  text_head lparen tail h = (b'(', tail, refl, omega arith)
  text_head rparen tail h = (b')', tail, refl, omega arith)

  scan-nil : (fuel : ℕ) (s : Scanner F) → s.rest ≡ [] → scan fl fuel s ≡ ok s
  unfolding scan
  scan-nil zero s e = refl
  scan-nil (suc fuel) s e = simp (e, scan)

  scan-blank :
      (fuel : ℕ) (cs : Text) (s : Scanner F)
      → scan fl (suc fuel) (record s { rest = b' ' ∷ cs }) ≡ scan fl fuel (record s { rest = cs })
  unfolding scan step_at
  scan-blank fuel cs s = refl

  abbrev pub done : List (Token F) → Scanner F → Scanner F
  done ts s = record {
    rest = [];
    out = s.out ++ ts;
    expect_operand = expects_after s.expect_operand ts;
  }

  -- One round of the loop reads one token.
  scan-token :
      (fuel : ℕ) (t : Token F) (tail : Text) (s : Scanner F)
      → s.rest ≡ text_of t ++ tail
      → HasText t
      → Stops tail
      → fits s.expect_operand t ≡ true
      → scan fl (suc fuel) s ≡ scan fl fuel (emit t tail (expects t) s)
  unfolding scan
  scan-token fuel t tail s r h k f =
      let (c, cs, e, le) = text_head t tail h in
      rw (r ∙ e, scan) (rw (step_at-text t c cs tail s h k f e (r ∙ e)))

  -- The scan of a token and of what follows it.
  pub scan-text :
      (fuel : ℕ) (t : Token F) (ts : List (Token F)) (s : Scanner F)
      → s.rest ≡ text_of t ++ spaced ts
      → length s.rest ≤ fuel
      → HasText t
      → All HasText ts
      → IsPlaced s.expect_operand (t ∷ ts)
      → scan fl fuel s ≡ ok (done (t ∷ ts) s)
  unfolding scan spaced
  scan-text zero t ts s r l h hs p =
      let (c, cs, e, le) = text_head t (spaced ts) h in absurd (omega (arith, ap length (r ∙ e)))
  scan-text (suc fuel) t [] s r l h hs p = scan-token fuel t [] s r h tt p.0 ∙ scan-nil fuel _ refl
  scan-text (suc zero) t (u ∷ us) s r l h hs p =
      let (c, cs, e, le) = text_head t (spaced (u ∷ us)) h in
      absurd (omega (arith, ap length (r ∙ e)))
  scan-text (suc (suc fuel)) t (u ∷ us) s r l h hs p =
      let (c, cs, e, le) = text_head t (spaced (u ∷ us)) h in
      let next = record (emit t (spaced (u ∷ us)) (expects t) s) {
        rest = text_of u ++ spaced us;
      } in
      scan-token (suc fuel) t (spaced (u ∷ us)) s r h refl p.0
      ∙ scan-blank fuel (text_of u ++ spaced us) (emit t (spaced (u ∷ us)) (expects t) s)
      ∙ scan-text fuel u us next refl (omega (arith, ap length (r ∙ e))) hs.0 hs.1 p.1
      ∙ ap (λ (out : List (Token F)). ok (record (done (t ∷ u ∷ us) s) { out = out }))
          (append_assoc s.out (t ∷ []) (u ∷ us))
