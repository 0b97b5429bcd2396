-- ===== src/Validator/Scan.antt =====
-- validator.go: what a text is that passes the checks.
use Prim.Native.Nat.{max}
use golang_service_architect.Common.{
  ℕ, zero, suc, ◌+◌, ◌-◌, ◌<◌, ◌≤◌, ◌≡◌, refl, sym, ap, ◌∙◌, Bool, true, false, not, ◌&&◌, ◌||◌,
  Option, none, some, [], ◌∷◌, length, take, Result, ok, err, >>=-eq-ok, Result-cases, ltb, ◌==◌,
  if◌then◌else◌, inl, inr, Bool-cases, arith, subst, All, All-weaken, ==_iff,
}
use golang_service_architect.Apperrors.{Error}
use golang_service_architect.Text.Trim.{encode-ascii}
use golang_service_architect.Text.{Text, encode, trim_space}
use golang_service_architect.Validator.{
  max_expression_length, max_paren_depth, ExprScan, expr_scan, is_digit, is_operator, is_blank,
  check_operator, check, check_all, finish, finished, validate_expression,
}

abbrev pub opens : ℕ → ℕ
opens r = if r == b'(' then 1 else 0

abbrev pub closes : ℕ → ℕ
closes r = if r == b')' then 1 else 0

abbrev pub total : (ℕ → ℕ) → Text → ℕ
total count [] = 0
total count (r ∷ rs) = count r + total count rs

abbrev pub has_digit : Text → Bool
has_digit [] = false
has_digit (r ∷ rs) = is_digit r || has_digit rs

-- The characters of an expression.
abbrev pub is_allowed : ℕ → Bool
is_allowed r = is_digit r || r == b'(' || r == b')' || is_operator r || is_blank r

-- What one rune does to the walk.
record Moves (r : ℕ) (s s' : ExprScan) : Type 0 where
  allowed : is_allowed r ≡ true
  balance : s.depth + opens r ≡ s'.depth + closes r
  deeper : s.max_depth ≤ s'.max_depth
  within : s.depth ≤ s.max_depth → s'.depth ≤ s'.max_depth
  digits : s'.digits ≡ is_digit r || s.digits

abbrev state_of : ExprScan → Result Error ExprScan → ExprScan
state_of other (ok s) = s
state_of other (err e) = other

abbrev is_none : Option Error → Bool
is_none none = true
is_none (some e) = false

or_false : (a : Bool) → (a || false) ≡ true → a ≡ true
or_false true h = refl
or_false false h = h

abbrev is_passed : Result Error ExprScan → Bool
is_passed (ok s) = true
is_passed (err e) = false

arrives :
    (r : ℕ) (s s' next : ExprScan)
    → check r s ≡ ok s'
    → check r s ≡ ok next
    → Moves r s next
    → Moves r s s'
arrives r s s' next e q m = subst (Moves r s) (ap (state_of s) (sym q ∙ e)) m

-- A rune that is no parenthesis and leaves the depths.
flat :
    (r : ℕ) (s next : ExprScan)
    → is_allowed r ≡ true
    → (r == b'(') ≡ false
    → (r == b')') ≡ false
    → next.depth ≡ s.depth
    → next.max_depth ≡ s.max_depth
    → next.digits ≡ is_digit r || s.digits
    → Moves r s next
flat r s next fine o c same deepest dig = record {
  allowed = fine;
  balance = rw (o, c) (omega (arith, same));
  deeper = omega (arith, deepest);
  within = λ h. omega (arith, h, same, deepest);
  digits = dig;
}

check-Moves : (r : ℕ) (s s' : ExprScan) → check r s ≡ ok s' → Moves r s s'
unfolding check check_operator
check-Moves r s s' e = elim (Bool-cases (is_digit r)) [
  | inl d ↦
      let o : (r == b'(') ≡ false = ground (arith, d) in
      let c : (r == b')') ≡ false = ground (arith, d) in
      arrives r s s' (record s { digits = true; prev = r }) e (rw d refl)
        (flat r s (record s { digits = true; prev = r }) (rw d refl) o c refl refl (rw d refl))
  | inr d ↦ elim (Bool-cases (r == b'(')) [
    | inl o ↦
        let c : (r == b')') ≡ false = ground (arith, o) in
        let next = record s {
          depth = s.depth + 1;
          max_depth = max s.max_depth (s.depth + 1);
          prev = r;
        } in
        arrives r s s' next e (rw (d, o) refl) (record {
          allowed = rw (d, o) refl;
          balance = rw (o, c) (omega arith);
          deeper = omega arith;
          within = λ h. omega arith;
          digits = rw d refl;
        })
    | inr o ↦ elim (Bool-cases (r == b')')) [
      | inl c ↦ elim (Bool-cases (s.depth == 0)) [
        | inl z ↦
            let refused : is_passed (check r s) ≡ false = rw (d, o, c, z) refl in
            absurd (let passed = ap is_passed e in cc)
        | inr z ↦
            let some_open : 0 < s.depth = ground (arith, z) in
            let next = record s { depth = s.depth - 1; prev = r } in
            arrives r s s' next e (rw (d, o, c, z) refl) (record {
              allowed = rw (d, o, c) refl;
              balance = rw (o, c) (omega (arith, some_open));
              deeper = omega arith;
              within = λ h. omega (arith, h);
              digits = rw d refl;
            })
      ]
      | inr c ↦ elim (Bool-cases (is_operator r)) [
        | inl p ↦
            elim (Bool-cases
              ((s.prev == b'+' || s.prev == b'*' || s.prev == b'/') && not (r == b'-'))) [
                | inl k ↦
                    let refused : is_passed (check r s) ≡ false = rw (d, o, c, p, k) refl in
                    absurd (let passed = ap is_passed e in cc)
                | inr k ↦
                    arrives r s s' (record s { prev = r }) e (rw (d, o, c, p, k) refl)
                      (flat r s (record s { prev = r }) (rw (d, o, c, p) refl) o c refl refl
                        (rw d refl))
              ]
        | inr p ↦ elim (Bool-cases (is_blank r)) [
          | inl b ↦
              arrives r s s' s e (rw (d, o, c, p, b) refl)
                (flat r s s (rw (d, o, c, p, b) refl) o c refl refl (rw d refl))
          | inr b ↦
              let refused : is_passed (check r s) ≡ false = rw (d, o, c, p, b) refl in
              absurd (let passed = ap is_passed e in cc)
        ]
      ]
    ]
  ]
]

-- What the walk over a text says of it.
record Walks (t : Text) (s s' : ExprScan) : Type 0 where
  allowed : All (λ r. is_allowed r ≡ true) t
  balance : s.depth + total opens t ≡ s'.depth + total closes t
  deeper : s.max_depth ≤ s'.max_depth
  within :
      s.depth ≤ s.max_depth
      → (n : ℕ)
      → (total closes (take n t) ≤ s.depth + total opens (take n t))
        × (s.depth + total opens (take n t) ≤ total closes (take n t) + s'.max_depth)
  digits : s'.digits ≡ has_digit t || s.digits

or_move : (a b c : Bool) → (b || (a || c)) ≡ ((a || b) || c)
or_move true true c = refl
or_move true false c = refl
or_move false true c = refl
or_move false false c = refl

check_all-Walks : (t : Text) (s s' : ExprScan) → check_all t s ≡ ok s' → Walks t s s'
unfolding check_all
check_all-Walks [] s s' e =
    let same = ap (state_of s) e in
    subst (Walks [] s) same (record {
      allowed = tt;
      balance = refl;
      deeper = omega arith;
      within = λ h n. nothing_taken n h;
      digits = refl;
    })
  where
    nothing_taken :
        (n : ℕ)
        → s.depth ≤ s.max_depth
        → (total closes (take n []) ≤ s.depth + total opens (take n []))
          × (s.depth + total opens (take n []) ≤ total closes (take n []) + s.max_depth)
    nothing_taken zero h = (omega arith, omega (arith, h))
    nothing_taken (suc n) h = (omega arith, omega (arith, h))
check_all-Walks (r ∷ rs) s s' e =
    let (s₁, here, there) = >>=-eq-ok (check r s) (check_all rs) e in
    let m = check-Moves r s s₁ here in
    let w = check_all-Walks rs s₁ s' there in
    record {
      allowed = (m.allowed, w.allowed);
      balance = omega (arith, m.balance, w.balance);
      deeper = omega (arith, m.deeper, w.deeper);
      within = λ h n. some_taken m w n h;
      digits =
          w.digits
          ∙ ap (λ b. has_digit rs || b) m.digits
          ∙ or_move (is_digit r) (has_digit rs) s.digits;
    }
  where
    some_taken :
        {s₁ : ExprScan}
        → Moves r s s₁
        → Walks rs s₁ s'
        → (n : ℕ) → s.depth ≤ s.max_depth
        → (total closes (take n (r ∷ rs)) ≤ s.depth + total opens (take n (r ∷ rs)))
          × (s.depth + total opens (take n (r ∷ rs))
              ≤ total closes (take n (r ∷ rs)) + s'.max_depth)
    some_taken m w zero h = (omega arith, omega (arith, h, m.deeper, w.deeper))
    some_taken m w (suc n) h =
        let (low, high) = w.within (m.within h) n in
        (omega (arith, low, m.balance), omega (arith, high, m.balance))

is_allowed_ascii : (r : ℕ) → is_allowed r ≡ true → r < 128
is_allowed_ascii r h = ground (arith, h)

-- What a text is that may be an expression.
pub record IsPlausible (t : Text) : Type 0 where
  pub filled : 0 < length t
  pub short : length t ≤ max_expression_length
  pub allowed : All (λ r. is_allowed r ≡ true) t
  pub digits : has_digit t ≡ true
  pub balanced : total opens t ≡ total closes t
  pub nested :
      (n : ℕ)
      → (total closes (take n t) ≤ total opens (take n t))
        × (total opens (take n t) ≤ total closes (take n t) + max_paren_depth)

-- What `finish` asks for.
finished-asks :
    (s : ExprScan)
    → finish s ≡ none
    → (s.depth ≡ 0) × (s.max_depth ≤ max_paren_depth) × (s.digits ≡ true)
unfolding finish
finished-asks s h = elim (Bool-cases (s.depth == 0)) [
  | inr z ↦
      absurd
        (let refused : is_none (finish s) ≡ false = rw z refl in let passed = ap is_none h in cc)
  | inl z ↦ elim (Bool-cases (ltb max_paren_depth s.max_depth)) [
    | inl d ↦ absurd (
        let refused : is_none (finish s) ≡ false = rw (z, d) refl in
        let passed = ap is_none h in cc)
    | inr d ↦ elim (Bool-cases s.digits) [
      | inl g ↦ ((==_iff s.depth 0).0 z, ground (arith, d), g)
      | inr g ↦ absurd (
          let refused : is_none (finish s) ≡ false = rw (z, d, g) refl in
          let passed = ap is_none h in cc)
    ]
  ]
]

plausible :
    (t : Text) (s : ExprScan)
    → 0 < length t
    → length (encode t) ≤ max_expression_length
    → check_all t expr_scan ≡ ok s
    → finish s ≡ none
    → IsPlausible t
plausible t s filled short walked done =
    let w = check_all-Walks t expr_scan s walked in
    let (flat_end, shallow, dig) = finished-asks s done in
    let ascii =
      encode-ascii t
        (All-weaken (λ r. is_allowed r ≡ true) (λ r. r < 128) is_allowed_ascii t w.allowed) in
    record {
      filled = filled;
      short = omega (arith, short, ap length ascii);
      allowed = w.allowed;
      digits = or_false (has_digit t) (sym w.digits ∙ dig);
      balanced = omega (arith, w.balance, flat_end);
      nested = λ n.
          let (low, high) = w.within (omega arith) n in
          (omega (arith, low), omega (arith, high, shallow));
    }

-- A text that passes the validation is, but for blanks around it, one to 512 characters long, of
-- the digits, the point, the parentheses, the four operators, blanks and tabs only; it has a digit
-- or a point; its parentheses balance, and no start of it closes more than it opens or opens more
-- than 64 more than it closes.
pub validate_expression-IsPlausible :
    (raw : Text) → validate_expression raw ≡ none → IsPlausible (trim_space raw)
unfolding validate_expression
validate_expression-IsPlausible raw h =
    let t = trim_space raw in
    elim (Bool-cases (length t == 0)) [
      | inl z ↦ absurd (
          let refused : is_none (validate_expression raw) ≡ false = rw z refl in
          let passed = ap is_none h in cc)
      | inr z ↦ elim (Bool-cases (ltb max_expression_length (length (encode t)))) [
        | inl l ↦ absurd (
            let refused : is_none (validate_expression raw) ≡ false = rw (z, l) refl in
            let passed = ap is_none h in cc)
        | inr l ↦ elim (Result-cases (check_all t expr_scan)) [
          | inl (s, q) ↦
              let ended : finished (check_all t expr_scan) ≡ none = sym (rw (z, l) refl) ∙ h in
              plausible t s (ground (arith, z)) (ground (arith, l)) q (sym (ap finished q) ∙ ended)
          | inr (e, q) ↦
              let ended : finished (check_all t expr_scan) ≡ none = sym (rw (z, l) refl) ∙ h in
              absurd (let refused = ap finished q in cc)
        ]
      ]
    ]
