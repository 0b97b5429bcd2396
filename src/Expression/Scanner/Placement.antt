-- ===== src/Expression/Scanner/Placement.antt =====
-- Where the scanner puts which operator, and that it reads the whole text.
use golang_service_architect.Common.{
  ℕ, zero, suc, ◌≡◌, refl, sym, ◌∙◌, ◌≤◌, Bool, true, false, Option-cases, List-cases, ap,
  Bool-cases, inl, inr, subst, ◌||◌, List, [], ◌∷◌, ◌++◌, length, Result, ok, >>=-eq-ok, ◌==◌,
  arith,
}
use golang_service_architect.Apperrors.{Error}
use golang_service_architect.Float64.{Float64}
use golang_service_architect.Text.{Text, trim_space, encode}
use golang_service_architect.Expression.Ast.{Op, Token, number, op, lparen, rparen}
use golang_service_architect.Expression.Scanner.{
  Scanner, span_number, is_number_byte, op_of_byte, emit, scan_operator, finish_number, scan_number,
  step_at, scan, scanner, tokenize,
}

abbrev pub is_neg : Op → Bool
is_neg Op.neg = true
is_neg _ = false

-- Whether an operand is expected behind a token.
abbrev pub expects : {F : Type 0} → Token F → Bool
expects (op o) = true
expects lparen = true
expects _ = false

-- An operator is the unary minus exactly where an operand is expected: at the start, behind a left
-- parenthesis and behind an operator.
abbrev pub fits : {F : Type 0} → Bool → Token F → Bool
fits true (op o) = is_neg o
fits false (op Op.neg) = false
fits _ _ = true

abbrev pub IsPlaced : {F : Type 0} → Bool → List (Token F) → Type 0
IsPlaced expect [] = Unit
IsPlaced expect (t ∷ ts) = (fits expect t ≡ true) × IsPlaced (expects t) ts

-- What is expected behind the last token.
abbrev pub expects_after : {F : Type 0} → Bool → List (Token F) → Bool
expects_after expect [] = expect
expects_after expect (t ∷ ts) = expects_after (expects t) ts

abbrev is_op : {F : Type 0} → Token F → Bool
is_op (op o) = true
is_op _ = false

module _ {F : Type 0} where
  pub IsPlaced-append :
      (expect : Bool) (ts us : List (Token F))
      → IsPlaced expect ts
      → IsPlaced (expects_after expect ts) us
      → IsPlaced expect (ts ++ us)
  IsPlaced-append expect [] us h k = k
  IsPlaced-append expect (t ∷ ts) us h k = (h.0, IsPlaced-append (expects t) ts us h.1 k)

  pub expects_after-append :
      (expect : Bool) (ts us : List (Token F))
      → expects_after expect (ts ++ us) ≡ expects_after (expects_after expect ts) us
  expects_after-append expect [] us = refl
  expects_after-append expect (t ∷ ts) us = expects_after-append (expects t) ts us

  -- The state agrees with the tokens that it has put out.
  pub record Agrees (s : Scanner F) : Type 0 where
    pub placed : IsPlaced true s.out
    pub expected : s.expect_operand ≡ expects_after true s.out

  Agrees-emit :
      (t : Token F) (rest : List ℕ) (s : Scanner F)
      → Agrees s
      → fits s.expect_operand t ≡ true
      → Agrees (emit t rest (expects t) s)
  Agrees-emit t rest s a h = record {
    placed = IsPlaced-append true s.out (t ∷ []) a.placed (rw (← a.expected) (h, tt));
    expected = sym (expects_after-append true s.out (t ∷ []));
  }

length-span_number : (cs : List ℕ) → length (span_number cs).1 ≤ length cs
unfolding span_number
length-span_number [] = omega arith
length-span_number (c ∷ cs) = ground (arith, length-span_number cs)

module _ (fl : Float64) where
  open fl use {F}

  -- What a step that takes the byte in front of `cs` leaves behind.
  abbrev Keeps : List ℕ → Scanner F → Type 0
  Keeps cs s = Agrees s × (length s.rest ≤ length cs)

  Keeps-emit :
      (t : Token F) (rest cs : List ℕ) (s : Scanner F) {s' : Scanner F}
      → Agrees s
      → fits s.expect_operand t ≡ true
      → length rest ≤ length cs
      → ◌≡◌ {A = Result Error (Scanner F)} (ok (emit t rest (expects t) s)) (ok s')
      → Keeps cs s'
  Keeps-emit t rest cs s a f l e = subst (Keeps cs) (cc) (Agrees-emit t rest s a f, l)

  fits-operand : (b : Bool) (t : Token F) → is_op t ≡ false → fits b t ≡ true
  fits-operand true (op o) h = cc
  fits-operand true (number v) h = refl
  fits-operand true lparen h = refl
  fits-operand true rparen h = refl
  fits-operand false (op o) h = cc
  fits-operand false (number v) h = refl
  fits-operand false lparen h = refl
  fits-operand false rparen h = refl

  scan_number-Keeps :
      (c : ℕ) (cs : List ℕ) (s : Scanner F) {s' : Scanner F}
      → s.rest ≡ c ∷ cs
      → is_number_byte c ≡ true
      → Agrees s
      → scan_number fl s ≡ ok s'
      → Keeps cs s'
  unfolding scan_number
  scan_number-Keeps c cs s e n a h = elim (Option-cases (fl.parse_float (span_number s.rest).0)) [
    | inl bad ↦ absurd (cc (rw (bad, scan_number, finish_number) at h))
    | inr (v, parsed) ↦
        Keeps-emit (number v) (span_number s.rest).1 cs s a (fits-operand s.expect_operand _ refl)
          (rw e (unfold span_number in rw n (length-span_number cs)))
          (rw (parsed, scan_number, finish_number) at h)
  ]

  scan_neg-Keeps :
      (c : ℕ) (cs : List ℕ) (s : Scanner F) {s' : Scanner F}
      → Agrees s
      → s.expect_operand ≡ true
      → scan_operator c cs s ≡ ok s'
      → Keeps cs s'
  unfolding scan_operator
  scan_neg-Keeps c cs s a e h = elim (Bool-cases (c == b'-')) [
    | inl minus ↦
        Keeps-emit (op Op.neg) cs cs s a (rw e) (omega arith) (rw (e, minus, scan_operator) at h)
    | inr bad ↦ absurd (cc (rw (e, bad, scan_operator) at h))
  ]

  scan_operator-Keeps :
      (c : ℕ) (cs : List ℕ) (s : Scanner F) {s' : Scanner F}
      → Agrees s
      → scan_operator c cs s ≡ ok s'
      → Keeps cs s'
  unfolding scan_operator
  scan_operator-Keeps c cs s a h = elim (Bool-cases s.expect_operand) [
    | inl operand ↦ scan_neg-Keeps c cs s a operand h
    | inr operator ↦
        Keeps-emit (op (op_of_byte c)) cs cs s a (rw operator (ground arith)) (omega arith)
          (rw (operator, scan_operator) at h)
  ]

  Keeps-blank :
      (cs : List ℕ) (s : Scanner F) {s' : Scanner F}
      → Agrees s
      → ◌≡◌ {A = Result Error (Scanner F)} (ok (record s { rest = cs })) (ok s')
      → Keeps cs s'
  Keeps-blank cs s a e =
      subst (Keeps cs) {x = record s { rest = cs }} (cc)
        (record { placed = a.placed; expected = a.expected }, omega arith)

  -- A step keeps the agreement and takes at least one byte.
  step_at-Keeps :
      (c : ℕ) (cs : List ℕ) (s : Scanner F) {s' : Scanner F}
      → s.rest ≡ c ∷ cs
      → Agrees s
      → step_at fl c cs s ≡ ok s'
      → Keeps cs s'
  unfolding step_at
  step_at-Keeps c cs s e a h = elim (Bool-cases (c == b' ' || c == b'\t')) [
    | inl blank ↦ Keeps-blank cs s a (rw (blank, step_at) at h)
    | inr x ↦ elim (Bool-cases (is_number_byte c)) [
      | inl digit ↦ scan_number-Keeps c cs s e digit a (rw (x, digit, step_at) at h)
      | inr y ↦ elim (Bool-cases (c == b'(')) [
        | inl open_lem ↦
            Keeps-emit lparen cs cs s a (fits-operand _ _ refl) (omega arith)
              (rw (x, y, open_lem, step_at) at h)
        | inr z ↦ elim (Bool-cases (c == b')')) [
          | inl closed ↦
              Keeps-emit rparen cs cs s a (fits-operand _ _ refl) (omega arith)
                (rw (x, y, z, closed, step_at) at h)
          | inr w ↦ elim (Bool-cases (c == b'+' || c == b'-' || c == b'*' || c == b'/')) [
            | inl operator ↦ scan_operator-Keeps c cs s a (rw (x, y, z, w, operator, step_at) at h)
            | inr bad ↦ absurd (cc (rw (x, y, z, w, bad, step_at) at h))
          ]
        ]
      ]
    ]
  ]

  -- Enough fuel reads the whole text, and the tokens are well placed.
  scan-Agrees :
      (fuel : ℕ) (s : Scanner F) {s' : Scanner F}
      → length s.rest ≤ fuel
      → Agrees s
      → scan fl fuel s ≡ ok s'
      → Agrees s' × (s'.rest ≡ [])
  unfolding scan
  scan-Agrees zero s l a h = elim (List-cases s.rest) [
    | inl e ↦ subst (λ (t : Scanner F). Agrees t × (t.rest ≡ [])) (cc) (a, e)
    | inr (c, cs, e) ↦ absurd (omega (arith, ap length e))
  ]
  scan-Agrees (suc fuel) s l a h = elim (List-cases s.rest) [
    | inl e ↦
        subst (λ (t : Scanner F). Agrees t × (t.rest ≡ [])) {x = s} (cc (rw (e, scan) at h)) (a, e)
    | inr (c, cs, e) ↦
        let (t, stepped, more) = >>=-eq-ok (step_at fl c cs s) (scan fl fuel) (rw (e, scan) at h) in
        let (a', l') = step_at-Keeps c cs s e a stepped in
        scan-Agrees fuel t (omega (arith, ap length e)) a' more
  ]

  -- The tokens of every text that is accepted are well placed: a `-` is the unary minus exactly
  -- where an operand is expected, and no other operator stands there.
  tokenize-IsPlaced :
      (raw : Text) (ts : List (Token F)) → tokenize fl raw ≡ ok ts → IsPlaced true ts
  unfolding tokenize
  tokenize-IsPlaced raw ts h =
      let src = encode (trim_space raw) in
      let (s, scanned, finished) = >>=-eq-ok (scan fl (length src) (scanner fl src)) _ h in
      let (a, read) =
        scan-Agrees (length src) (scanner fl src) (omega arith)
          (record { placed = tt; expected = refl }) scanned in
      elim (List-cases s.out) [
        | inl e ↦ absurd (cc (rw e at finished))
        | inr (t, us, e) ↦ subst (IsPlaced true) (e ∙ cc (rw e at finished)) a.placed
      ]
